-- ===== src/Kms/Framebuffers/Balance.antt =====
-- Handles and framebuffers are given back as often as they were taken.
use teraguchi.Common.{
  ℕ, ◌+◌, ◌≡◌, ◌≢◌, refl, sym, ap, Bool, false, List, [], ◌∷◌, ◌++◌, Option, none, some, ◌==◌,
  if◌then◌else◌, arith, append-nil,
}
use teraguchi.Kms.Framebuffers.{
  CachedFramebuffer, Call, import_handle, close_handle, add_framebuffer, remove_framebuffer, Cache,
  SampleInfo, Strtoull, accept_sample, find_cached, Answers, add_imported, import_buffer,
  use_buffer, create_accepted, create_frame, release_calls, release_framebuffer_cache,
}

-- How many items pass a test.
abbrev pub count_if : {A : Type 0} → (A → Bool) → List A → ℕ
count_if p [] = 0
count_if p (x ∷ xs) = (if p x then 1 else 0) + count_if p xs

count_if-append :
    {A : Type 0} (p : A → Bool) (xs ys : List A)
    → count_if p (xs ++ ys) ≡ count_if p xs + count_if p ys
count_if-append p [] ys = omega arith
count_if-append p (x ∷ xs) ys = omega (arith, count_if-append p xs ys)

-- The calls that take the handle or the framebuffer `x`, and that give it back.
abbrev pub imports : ℕ → Call → Bool
imports x (import_handle h) = h == x
imports x (close_handle h) = false
imports x (add_framebuffer f) = false
imports x (remove_framebuffer f) = false

abbrev pub closes : ℕ → Call → Bool
closes x (import_handle h) = false
closes x (close_handle h) = h == x
closes x (add_framebuffer f) = false
closes x (remove_framebuffer f) = false

abbrev pub adds : ℕ → Call → Bool
adds x (import_handle h) = false
adds x (close_handle h) = false
adds x (add_framebuffer f) = f == x
adds x (remove_framebuffer f) = false

abbrev pub removes : ℕ → Call → Bool
removes x (import_handle h) = false
removes x (close_handle h) = false
removes x (add_framebuffer f) = false
removes x (remove_framebuffer f) = f == x

-- The entries with the handle or the framebuffer `x`.
abbrev pub holds : ℕ → CachedFramebuffer → Bool
holds x entry = entry.gem_handle == x

abbrev pub shows : ℕ → CachedFramebuffer → Bool
shows x entry = entry.framebuffer == x

-- What was taken was given back, or is in the cache.
pub record Balanced (x : ℕ) (cache : Cache) : Type 0 where
  pub handles :
      count_if (imports x) cache.calls
      ≡ count_if (closes x) cache.calls + count_if (holds x) cache.entries
  pub framebuffers :
      count_if (adds x) cache.calls
      ≡ count_if (removes x) cache.calls + count_if (shows x) cache.entries

-- A cache after more calls and more entries that balance each other.
more-Balanced :
    (x : ℕ) (cache later : Cache) (calls : List Call) (entries : List CachedFramebuffer)
    → later.calls ≡ cache.calls ++ calls
    → later.entries ≡ cache.entries ++ entries
    → count_if (imports x) calls ≡ count_if (closes x) calls + count_if (holds x) entries
    → count_if (adds x) calls ≡ count_if (removes x) calls + count_if (shows x) entries
    → Balanced x cache
    → Balanced x later
more-Balanced x cache later calls entries c e h f b = record {
  handles = omega (
    arith,
    ap (count_if (imports x)) c,
    ap (count_if (closes x)) c,
    ap (count_if (holds x)) e,
    count_if-append (imports x) cache.calls calls,
    count_if-append (closes x) cache.calls calls,
    count_if-append (holds x) cache.entries entries,
    b.handles,
  );
  framebuffers = omega (
    arith,
    ap (count_if (adds x)) c,
    ap (count_if (removes x)) c,
    ap (count_if (shows x)) e,
    count_if-append (adds x) cache.calls calls,
    count_if-append (removes x) cache.calls calls,
    count_if-append (shows x) cache.entries entries,
    b.framebuffers,
  );
}

add_imported-Balanced :
    (x : ℕ) (cache : Cache) (drm_format : List ℕ) (device inode handle : ℕ) (framebuffer : Option ℕ)
    → Balanced x cache
    → Balanced x (add_imported cache drm_format device inode handle framebuffer).0
unfolding add_imported
add_imported-Balanced x cache drm_format device inode handle none b =
    more-Balanced x cache _ (import_handle handle ∷ (close_handle handle ∷ [])) [] refl
      (sym (append-nil cache.entries)) (omega arith) refl b
add_imported-Balanced x cache drm_format device inode handle (some framebuffer) b =
    more-Balanced x cache _ (import_handle handle ∷ (add_framebuffer framebuffer ∷ []))
      (record { device = device; inode = inode; framebuffer = framebuffer; gem_handle = handle }
        ∷ [])
      refl refl (omega arith) (omega arith) b

create_frame-Balanced :
    (x : ℕ) (strtoull : Strtoull) (hdisplay vdisplay : ℕ) (cache : Cache) (sample : SampleInfo)
    (answers : Answers)
    → Balanced x cache
    → Balanced x (create_frame strtoull hdisplay vdisplay cache sample answers).0
unfolding create_frame import_buffer use_buffer create_accepted
create_frame-Balanced x strtoull hdisplay vdisplay cache sample answers b =
    accepted (accept_sample strtoull hdisplay vdisplay sample) sample.stat
  where
    imported :
        (drm_format : List ℕ) (device inode : ℕ) (handle framebuffer : Option ℕ)
        → Balanced x (import_buffer cache drm_format device inode handle framebuffer).0
    imported drm_format device inode none framebuffer = b
    imported drm_format device inode (some handle) framebuffer =
        add_imported-Balanced x cache drm_format device inode handle framebuffer b

    used :
        (drm_format : List ℕ) (device inode : ℕ) (found : Option ℕ)
        → Balanced x (use_buffer cache drm_format device inode answers found).0
    used drm_format device inode none =
        imported drm_format device inode answers.handle answers.framebuffer
    used drm_format device inode (some framebuffer) = record {
      handles = b.handles;
      framebuffers = b.framebuffers;
    }

    accepted :
        (format : Option (List ℕ × ℕ)) (stat : Option (ℕ × ℕ))
        → Balanced x (create_accepted cache answers format stat).0
    accepted none stat = b
    accepted (some format) none = b
    accepted (some (drm_format, modifier)) (some (device, inode)) =
        used drm_format device inode (find_cached device inode cache.entries)

-- What a release gives back is what the cache holds, the number 0 left out.
release_counts :
    (x : ℕ) (entries : List CachedFramebuffer)
    → x ≢ 0
    → (count_if (closes x) (release_calls entries) ≡ count_if (holds x) entries)
      × (count_if (removes x) (release_calls entries) ≡ count_if (shows x) entries)
      × (count_if (imports x) (release_calls entries) ≡ 0)
      × (count_if (adds x) (release_calls entries) ≡ 0)
unfolding release_calls
release_counts x [] h = (refl, refl, refl, refl)
release_counts x (entry ∷ entries) h =
    let (p, q, r, t) = release_counts x entries h in
    (ground (arith, p), ground (arith, q), ground (arith, r), ground (arith, t))

-- The frames made of some samples, one after the other.
unfoldable pub create_frames : Strtoull → ℕ → ℕ → Cache → List (SampleInfo × Answers) → Cache
create_frames strtoull hdisplay vdisplay cache [] = cache
create_frames strtoull hdisplay vdisplay cache ((sample, answers) ∷ samples) =
    create_frames strtoull hdisplay vdisplay
      (create_frame strtoull hdisplay vdisplay cache sample answers).0 samples

create_frames-Balanced :
    (x : ℕ) (strtoull : Strtoull) (hdisplay vdisplay : ℕ) (samples : List (SampleInfo × Answers))
    (cache : Cache)
    → Balanced x cache
    → Balanced x (create_frames strtoull hdisplay vdisplay cache samples)
unfolding create_frames
create_frames-Balanced x strtoull hdisplay vdisplay [] cache b = b
create_frames-Balanced x strtoull hdisplay vdisplay ((sample, answers) ∷ samples) cache b =
    create_frames-Balanced x strtoull hdisplay vdisplay samples _
      (create_frame-Balanced x strtoull hdisplay vdisplay cache sample answers b)

release-Balanced :
    (x : ℕ) (cache : Cache)
    → x ≢ 0
    → Balanced x cache
    → Balanced x (release_framebuffer_cache cache)
unfolding release_framebuffer_cache
release-Balanced x cache h b =
    let (closed, removed, none_taken, none_added) = release_counts x cache.entries h in
    let calls = release_calls cache.entries in
    record {
      handles = omega (
        arith,
        count_if-append (imports x) cache.calls calls,
        count_if-append (closes x) cache.calls calls,
        closed,
        none_taken,
        b.handles,
      );
      framebuffers = omega (
        arith,
        count_if-append (adds x) cache.calls calls,
        count_if-append (removes x) cache.calls calls,
        removed,
        none_added,
        b.framebuffers,
      );
    }

abbrev pub empty_cache : Cache
empty_cache = record { entries = []; hits = 0; misses = 0; drm_format = []; calls = [] }

-- Whatever samples came and whatever the kernel answered, after the cache is released every handle but 0
-- was closed just as often as it was imported, and every framebuffer but 0 removed as often as it was
-- added, failed frames included.
pub release-create_frames :
    (strtoull : Strtoull) (hdisplay vdisplay : ℕ) (samples : List (SampleInfo × Answers)) (x : ℕ)
    → x ≢ 0
    → let calls =
        (release_framebuffer_cache
          (create_frames strtoull hdisplay vdisplay empty_cache samples)).calls in
      (count_if (imports x) calls ≡ count_if (closes x) calls)
      × (count_if (adds x) calls ≡ count_if (removes x) calls)
unfolding release_framebuffer_cache
release-create_frames strtoull hdisplay vdisplay samples x h =
    let made = create_frames strtoull hdisplay vdisplay empty_cache samples in
    let b = release-Balanced x made h (
      create_frames-Balanced x strtoull hdisplay vdisplay samples empty_cache
        (record { handles = refl; framebuffers = refl })) in
    (omega (arith, b.handles), omega (arith, b.framebuffers))
