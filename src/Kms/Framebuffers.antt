-- ===== src/Kms/Framebuffers.antt =====
-- The cache of framebuffers: `parse_modifier`, `create_frame` and `release_framebuffer_cache`. What a
-- sample shows to its reader and what the kernel answers are data; `strtoull` is a parameter, which
-- gives the value and the text behind it. The calls of the kernel that take or give back a handle or a
-- framebuffer are kept in the order in which they are made.
pub mod Balance
use teraguchi.Common.{
  ℕ, zero, suc, ◌+◌, ◌%◌, ◌^◌, Bool, true, false, not, ◌||◌, ◌&&◌, List, [], ◌∷◌, ◌++◌, Option,
  none, some, length, ◌==◌, ◌!=◌, if◌then◌else◌,
}
use teraguchi.Common.Bytes.{starts_with}
use teraguchi.Common.Options.{◌>>=◌}

pub record CachedFramebuffer : Type 0 where
  pub device : ℕ
  pub inode : ℕ
  pub framebuffer : ℕ
  pub gem_handle : ℕ

-- A call with the handle or the framebuffer that it is about.
pub data Call : Type 0 where
  import_handle : ℕ → Call
  close_handle : ℕ → Call
  add_framebuffer : ℕ → Call
  remove_framebuffer : ℕ → Call

pub record Cache : Type 0 where
  pub entries : List CachedFramebuffer
  pub hits : ℕ
  pub misses : ℕ
  pub drm_format : List ℕ
  pub calls : List Call

pub record VideoMeta : Type 0 where
  pub width : ℕ
  pub height : ℕ

-- A sample as `create_frame` reads it: `stat` is the device and the inode of its only memory, where that
-- is a DMA buffer with a descriptor that `fstat` accepts.
pub record SampleInfo : Type 0 where
  pub meta : Option VideoMeta
  pub drm_format : Option (List ℕ)
  pub n_memory : ℕ
  pub stat : Option (ℕ × ℕ)

-- "Y410"
abbrev pub y410 : List ℕ
y410 = b'Y' ∷ (b'4' ∷ (b'1' ∷ (b'0' ∷ [])))

-- `strchr(text, ':') + 1`
unfoldable pub behind_colon : List ℕ → Option (List ℕ)
behind_colon [] = none
behind_colon (c ∷ text) = let rest = behind_colon text in if c == b':' then some text else rest

abbrev pub Strtoull : Type 0
Strtoull = List ℕ → ℕ × List ℕ

module _ (strtoull : Strtoull) where
  unfoldable pub parse_modifier : List ℕ → Option ℕ
  parse_modifier drm_format = do
    digits ← behind_colon drm_format
    let parsed = strtoull digits
    if length parsed.1 == length digits || length parsed.1 != 0 then none else some parsed.0

  -- The tests on the sample: the format and the modifier of one that is accepted.
  unfoldable pub accept_sample : ℕ → ℕ → SampleInfo → Option (List ℕ × ℕ)
  accept_sample hdisplay vdisplay sample = do
    meta ← sample.meta
    drm_format ← sample.drm_format
    let refused =
        not (starts_with y410 drm_format)
        || sample.n_memory != 1
        || meta.width != hdisplay
        || meta.height != vdisplay
    modifier ← (if refused then none else parse_modifier drm_format)
    some (drm_format, modifier)

-- The framebuffer of the first entry for a buffer.
unfoldable pub find_cached : ℕ → ℕ → List CachedFramebuffer → Option ℕ
find_cached device inode [] = none
find_cached device inode (entry ∷ entries) =
    if entry.device == device && entry.inode == inode
    then some entry.framebuffer
    else find_cached device inode entries

-- What the kernel answers to the import of a buffer, and to the making of a framebuffer of its handle.
pub record Answers : Type 0 where
  pub handle : Option ℕ
  pub framebuffer : Option ℕ

-- A handle was imported: it becomes a framebuffer, or it is closed.
unfoldable pub add_imported : Cache → List ℕ → ℕ → ℕ → ℕ → Option ℕ → Cache × Option ℕ
add_imported cache drm_format device inode handle none = (
  record cache { calls = cache.calls ++ (import_handle handle ∷ (close_handle handle ∷ [])) },
  none,
)
add_imported cache drm_format device inode handle (some framebuffer) = (
  record cache {
    entries =
        cache.entries
        ++ (record {
          device = device;
          inode = inode;
          framebuffer = framebuffer;
          gem_handle = handle;
        }
            ∷ []);
    misses = cache.misses + 1;
    drm_format = drm_format;
    calls = cache.calls ++ (import_handle handle ∷ (add_framebuffer framebuffer ∷ []));
  },
  some framebuffer,
)

unfoldable pub import_buffer : Cache → List ℕ → ℕ → ℕ → Option ℕ → Option ℕ → Cache × Option ℕ
import_buffer cache drm_format device inode none framebuffer = (cache, none)
import_buffer cache drm_format device inode (some handle) framebuffer =
    add_imported cache drm_format device inode handle framebuffer

unfoldable pub use_buffer : Cache → List ℕ → ℕ → ℕ → Answers → Option ℕ → Cache × Option ℕ
use_buffer cache drm_format device inode answers none =
    import_buffer cache drm_format device inode answers.handle answers.framebuffer
use_buffer cache drm_format device inode answers (some framebuffer) =
    (record cache { hits = cache.hits + 1 }, some framebuffer)

unfoldable pub create_accepted :
    Cache → Answers → Option (List ℕ × ℕ) → Option (ℕ × ℕ) → Cache × Option ℕ
create_accepted cache answers none stat = (cache, none)
create_accepted cache answers (some accepted) none = (cache, none)
create_accepted cache answers (some (drm_format, modifier)) (some (device, inode)) =
    use_buffer cache drm_format device inode answers (find_cached device inode cache.entries)

-- The cache after the call, and the framebuffer of the frame where the call returns true.
unfoldable pub create_frame : Strtoull → ℕ → ℕ → Cache → SampleInfo → Answers → Cache × Option ℕ
create_frame strtoull hdisplay vdisplay cache sample answers =
    create_accepted cache answers (accept_sample strtoull hdisplay vdisplay sample) sample.stat

unfoldable pub release_calls : List CachedFramebuffer → List Call
release_calls [] = []
release_calls (entry ∷ entries) =
    (if entry.framebuffer != 0 then remove_framebuffer entry.framebuffer ∷ [] else [])
    ++ ((if entry.gem_handle != 0 then close_handle entry.gem_handle ∷ [] else [])
        ++ release_calls entries)

unfoldable pub release_framebuffer_cache : Cache → Cache
release_framebuffer_cache cache = record cache {
  entries = [];
  calls = cache.calls ++ release_calls cache.entries;
}
