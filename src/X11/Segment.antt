-- ===== src/X11/Segment.antt =====
-- The life of a `shm_image_t`: its constructor, with the cleanup where a step throws, and its destructor.
-- What the server and the kernel answer is given; the calls that take or give back something are kept in
-- the order in which they are made.
use teraguchi.Common.{
  ℕ, ◌+◌, ◌-◌, ◌*◌, ◌^◌, ◌≡◌, refl, Bool, true, false, not, ◌&&◌, ◌||◌, List, [], ◌∷◌, ◌++◌, Option,
  none, some, ltb, ◌==◌, if◌then◌else◌,
}

-- `removes` is the call of shmctl with IPC_RMID, and whether it succeeded.
pub data Call : Type 0 where
  creates_image : Call
  destroys_image : Call
  gets_segment : Call
  removes : Bool → Call
  maps : Call
  unmaps : Call
  attaches : Call
  detaches : Call

-- `image` is the size of the image in bytes, the product of its line and its height.
pub record Answers : Type 0 where
  pub image : Option ℕ
  pub segment : Bool
  pub mapping : Bool
  pub attachment : Bool
  pub marking : Bool
  pub removal : Bool

pub record ShmImage : Type 0 where
  pub image : Bool
  pub shmid : Bool
  pub shmaddr : Bool
  pub attached : Bool
  pub marked_for_removal : Bool
  pub calls : List Call

abbrev pub unmade : ShmImage
unmade = record {
  image = false;
  shmid = false;
  shmaddr = false;
  attached = false;
  marked_for_removal = false;
  calls = [];
}

unfoldable pub cleanup : ShmImage → Bool → ShmImage
cleanup s removal = record {
  image = false;
  shmid = false;
  shmaddr = false;
  attached = false;
  marked_for_removal = s.marked_for_removal;
  calls =
      s.calls
      ++ ((if s.attached then detaches ∷ [] else [])
          ++ ((if s.image then destroys_image ∷ [] else [])
              ++ ((if s.shmaddr then unmaps ∷ [] else [])
                  ++ (if s.shmid && not s.marked_for_removal then removes removal ∷ [] else []))));
}

-- A step of the constructor throws: it cleans up, and there is no object.
unfoldable pub throws : ShmImage → Bool → ShmImage × Bool
throws s removal = (cleanup s removal, false)

unfoldable pub mark : ShmImage → Answers → ShmImage × Bool
mark s answers =
    let called = record s { calls = s.calls ++ (removes answers.marking ∷ []) } in
    if answers.marking
    then (record called { marked_for_removal = true }, true)
    else throws called answers.removal

unfoldable pub attach : ShmImage → Answers → ShmImage × Bool
attach s answers =
    if answers.attachment
    then mark (record s { attached = true; calls = s.calls ++ (attaches ∷ []) }) answers
    else throws s answers.removal

unfoldable pub map_segment : ShmImage → Answers → ShmImage × Bool
map_segment s answers =
    if answers.mapping
    then attach (record s { shmaddr = true; calls = s.calls ++ (maps ∷ []) }) answers
    else throws s answers.removal

unfoldable pub get_segment : ShmImage → Answers → ShmImage × Bool
get_segment s answers =
    if answers.segment
    then map_segment (record s { shmid = true; calls = s.calls ++ (gets_segment ∷ []) }) answers
    else throws s answers.removal

unfoldable pub create_image : ShmImage → Answers → Option ℕ → ShmImage × Bool
create_image s answers none = throws s answers.removal
create_image s answers (some size) =
    let created = record s { image = true; calls = s.calls ++ (creates_image ∷ []) } in
    if size == 0 || ltb ((2 ^ 31 - 1) * 16) size
    then throws created answers.removal
    else get_segment created answers

-- The object after its constructor, and whether there is one.
unfoldable pub construct : Answers → ShmImage × Bool
construct answers = create_image unmade answers answers.image

-- The whole life: the destructor runs where the constructor did not throw.
unfoldable pub lifetime : Answers → ShmImage
lifetime answers =
    let (s, made) = construct answers in if made then cleanup s answers.removal else s

-- How many calls of a kind there are.
abbrev pub counted : (Call → Bool) → List Call → ℕ
counted is [] = 0
counted is (call ∷ calls) = (if is call then 1 else 0) + counted is calls

abbrev pub eq_call : Call → Call → Bool
eq_call creates_image creates_image = true
eq_call destroys_image destroys_image = true
eq_call gets_segment gets_segment = true
eq_call (removes true) (removes true) = true
eq_call (removes false) (removes false) = true
eq_call maps maps = true
eq_call unmaps unmaps = true
eq_call attaches attaches = true
eq_call detaches detaches = true
eq_call _ _ = false

-- What was taken was given back just as often.
pub record Balanced (calls : List Call) : Type 0 where
  pub images : counted (eq_call creates_image) calls ≡ counted (eq_call destroys_image) calls
  pub segments : counted (eq_call gets_segment) calls ≡ counted (eq_call (removes true)) calls
  pub mappings : counted (eq_call maps) calls ≡ counted (eq_call unmaps) calls
  pub attachments : counted (eq_call attaches) calls ≡ counted (eq_call detaches) calls

IsBalanced : Answers → ShmImage × Bool → Type 0
IsBalanced answers result =
    Balanced (let (s, made) = result in if made then cleanup s answers.removal else s).calls

segment-Balanced :
    (image : Option ℕ) (segment mapping attachment marking removal : Bool)
    → removal ≡ true
    → let answers : Answers = record {
      image = image;
      segment = segment;
      mapping = mapping;
      attachment = attachment;
      marking = marking;
      removal = removal;
    } in
      IsBalanced answers
        (get_segment (record unmade { image = true; calls = creates_image ∷ [] }) answers)
unfolding IsBalanced get_segment map_segment attach mark throws cleanup
segment-Balanced image false mapping attachment marking removal e = record {
  images = refl;
  segments = refl;
  mappings = refl;
  attachments = refl;
}
segment-Balanced image true false attachment marking removal e =
    rw e (record { images = refl; segments = refl; mappings = refl; attachments = refl })
segment-Balanced image true true false marking removal e =
    rw e (record { images = refl; segments = refl; mappings = refl; attachments = refl })
segment-Balanced image true true true false removal e =
    rw e (record { images = refl; segments = refl; mappings = refl; attachments = refl })
segment-Balanced image true true true true removal e = record {
  images = refl;
  segments = refl;
  mappings = refl;
  attachments = refl;
}

by_size :
    (answers : Answers) (c : Bool) (a b : ShmImage × Bool)
    → IsBalanced answers a
    → IsBalanced answers b
    → IsBalanced answers (if c then a else b)
by_size answers true a b p q = p
by_size answers false a b p q = q

created-Balanced :
    (answers : Answers) (image : Option ℕ)
    → answers.image ≡ image
    → answers.removal ≡ true
    → IsBalanced answers (create_image unmade answers image)
unfolding IsBalanced create_image throws cleanup
created-Balanced answers none f e = record {
  images = refl;
  segments = refl;
  mappings = refl;
  attachments = refl;
}
created-Balanced answers (some size) f e =
    by_size answers (size == 0 || ltb ((2 ^ 31 - 1) * 16) size) _ _
      (record { images = refl; segments = refl; mappings = refl; attachments = refl })
      (segment-Balanced answers.image answers.segment answers.mapping answers.attachment
        answers.marking answers.removal e)

-- At whatever step the constructor throws, and where the object lives to its end, the image, the segment,
-- its mapping and its attachment are each given back as often as they were taken, if the kernel removes a
-- segment when the cleanup asks for it.
pub lifetime-Balanced :
    (answers : Answers) → answers.removal ≡ true → Balanced (lifetime answers).calls
unfolding lifetime construct IsBalanced
lifetime-Balanced answers e = created-Balanced answers answers.image refl e
