-- ===== src/Wacom/Socket.antt =====
-- `write_all` and `read_all` of the bridge, over whatever `send` and `recv` do. A schedule lists what
-- the calls of one run return, in order; a run that needs a longer schedule is still waiting.
pub mod Exact
pub mod Returns
use teraguchi.Common.{
  ℕ, zero, suc, ◌-◌, min, Bool, true, false, List, [], ◌∷◌, ◌++◌, Option, none, some, take, drop,
  length,
}

-- What one call of `send` does: it takes up to `n` bytes (it fails at 0), or gives EINTR, or fails.
pub data SendStep : Type 0 where
  takes : ℕ → SendStep
  interrupted : SendStep
  failed : SendStep

-- `status` is `none` while the call waits, and else what it returned; `wire` holds the bytes that were
-- handed to the kernel.
pub record Written : Type 0 where
  pub status : Option Bool
  pub wire : List ℕ
  pub schedule : List SendStep

-- The list is what is still to be written.
unfoldable pub write_all : List SendStep → List ℕ → Written
write_all schedule [] = record { status = some true; wire = []; schedule = schedule }
write_all [] (b ∷ bytes) = record { status = none; wire = []; schedule = [] }
write_all (interrupted ∷ schedule) (b ∷ bytes) = write_all schedule (b ∷ bytes)
write_all (failed ∷ schedule) (b ∷ bytes) = record {
  status = some false;
  wire = [];
  schedule = schedule;
}
write_all (takes zero ∷ schedule) (b ∷ bytes) = record {
  status = some false;
  wire = [];
  schedule = schedule;
}
write_all (takes (suc n) ∷ schedule) (b ∷ bytes) =
    let rest = write_all schedule (drop n bytes) in
    record rest { wire = b ∷ (take n bytes ++ rest.wire) }

-- What one call of `recv` does: it gives up to `n` of the bytes that have come, or EINTR, or fails.
pub data ReceiveStep : Type 0 where
  gives : ℕ → ReceiveStep
  interrupted : ReceiveStep
  failed : ReceiveStep

-- `bytes` are those that were read, and `stream` those that are still to be read.
pub record Read : Type 0 where
  pub status : Option Bool
  pub bytes : List ℕ
  pub stream : List ℕ
  pub schedule : List ReceiveStep

-- `size` is what is still to be read. A `recv` that gives no byte ends the call with false: the peer
-- has closed the connection.
unfoldable pub read_all : List ReceiveStep → List ℕ → ℕ → Read
read_all schedule stream zero = record {
  status = some true;
  bytes = [];
  stream = stream;
  schedule = schedule;
}
read_all [] stream (suc size) = record { status = none; bytes = []; stream = stream; schedule = [] }
read_all (interrupted ∷ schedule) stream (suc size) = read_all schedule stream (suc size)
read_all (failed ∷ schedule) stream (suc size) = record {
  status = some false;
  bytes = [];
  stream = stream;
  schedule = schedule;
}
read_all (gives zero ∷ schedule) stream (suc size) = record {
  status = some false;
  bytes = [];
  stream = stream;
  schedule = schedule;
}
read_all (gives (suc n) ∷ schedule) [] (suc size) = record {
  status = some false;
  bytes = [];
  stream = [];
  schedule = schedule;
}
read_all (gives (suc n) ∷ schedule) (b ∷ stream) (suc size) =
    let chunk = take (min n size) stream in
    let rest = read_all schedule (drop (min n size) stream) (size - length chunk) in
    record rest { bytes = b ∷ (chunk ++ rest.bytes) }
