-- ===== src/Jit/Artifact.antt =====
-- What stands under the path that `jit_compile` of src/jit.cpp returns, and what a later call does with it.
use cohere_megakernel.Common.{
  ℕ, ◌≡◌, refl, ◌∙◌, sym, ap, subst, arith, Bool, Bool-cases, inl, inr, true, false, ◌&&◌, Option,
  Option-cases, none, some, [], ◌∷◌, ◌++◌, bytes_eq, bytes_eq_iff, if◌then◌else◌,
}
use mathlib.Core.Bool.{false≢true}
use cohere_megakernel.Jit.{
  Files, JitError, Compiled, compiled, failed, Request, Moment, before_lookup, before_check,
  before_hit, before_artifact_check, before_rename, renaming_done, before_second_lookup,
  before_second_check, before_second_removal, before_second_return, Outside, publish_lost,
  write_file, remove_file, is_valid_elf_shared_object, exists, hash_input, cache_dir, publish,
  check_artifact, after_nvcc, compile, lookup_or_compile, jit_compile, content_of,
}
use cohere_megakernel.Jit.Names.{
  Text, find_nvcc, separated, so_path, so_suffix, tmp_infix, lib_prefix, make_temp_so_path,
}

tail_eq : {a b : ℕ} {s t : Text} → a ∷ s ≡ b ∷ t → s ≡ t
tail_eq e = cc

suffixes_differ : (rest : Text) → ¬ (so_suffix ≡ tmp_infix ++ (rest ++ so_suffix))
suffixes_differ rest e = cc

append_cancel : (p a b : Text) → p ++ a ≡ p ++ b → a ≡ b
append_cancel [] a b e = e
append_cancel (x ∷ p) a b e = append_cancel p a b (tail_eq e)

-- The name of the temporary file is another one.
so_path-temp :
    (dir hash rest : Text) → bytes_eq (so_path dir hash) (make_temp_so_path dir hash rest) ≡ false
so_path-temp dir hash rest =
    elim (Bool-cases (bytes_eq (so_path dir hash) (make_temp_so_path dir hash rest))) [
      | inr other ↦ other
      | inl same ↦
          let e = (bytes_eq_iff (so_path dir hash) (make_temp_so_path dir hash rest)).0 same in
          absurd (
            suffixes_differ rest (
              append_cancel hash _ _
                (append_cancel lib_prefix _ _ (append_cancel (separated dir) _ _ e))))
    ]

-- Under the path is a shared object.
abbrev pub Artifact : Text → Files → Type 0
Artifact p fs = is_valid_elf_shared_object (fs p) ≡ true

-- Whatever is returned is there.
data Served (so : Text) : Compiled → Type 0 where
  returns : {fs : Files} → Artifact so fs → Served so (compiled so fs)
  throws : {e : JitError} {fs : Files} → Served so (failed e fs)

Served-if :
    (so : Text) (c : Bool) (a b : Compiled)
    → Served so a
    → Served so b
    → Served so (if c then a else b)
Served-if so true a b first second = first
Served-if so false a b first second = second

content-valid :
    (file : Option Text)
    → is_valid_elf_shared_object file ≡ true
    → is_valid_elf_shared_object (some (content_of file)) ≡ true
unfolding is_valid_elf_shared_object
content-valid none valid = absurd (false≢true valid)
content-valid (some content) valid = valid

-- Other workers do not break or remove a valid artifact. A worker of this code does so where it judged
-- the file broken and removes it after another one was moved there.
abbrev pub Keeps : Outside → Text → Type 0
Keeps w so = (m : Moment) (fs : Files) → Artifact so fs → Artifact so (w.others m fs)

-- A temporary file is left alone by other workers: its name has the worker's process and thread.
abbrev pub Own : Outside → Text → Type 0
Own w tmp = (m : Moment) (fs : Files) → w.others m fs tmp ≡ fs tmp

module _ (w : Outside) (so tmp : Text) (other : bytes_eq so tmp ≡ false) (keeps : Keeps w so)
    (own : Own w tmp) where
  -- The file under another path stays.
  removed_other : (fs : Files) → Artifact so fs → Artifact so (remove_file fs tmp)
  removed_other fs valid = rw other valid

  publish_lost-Served : (fs : Files) → Served so (publish_lost w so tmp fs)
  unfolding publish_lost
  publish_lost-Served fs =
      let looked = w.others before_second_lookup fs in
      let checked = w.others before_second_check looked in
      elim (Bool-cases (exists (looked so) && is_valid_elf_shared_object (checked so))) [
        | inr lost ↦ rw lost throws
        | inl won ↦
            (let valid : Artifact so checked = ground (arith, won) in
              rw won (
                returns (
                  keeps before_second_return _ (
                    removed_other (w.others before_second_removal checked)
                      (keeps before_second_removal checked valid)))))
      ]

  publish-Served : (fs : Files) → Artifact tmp fs → Served so (publish w so tmp fs)
  unfolding publish
  publish-Served fs valid =
      let now = w.others before_rename fs in
      let itself = (bytes_eq_iff so so).1 refl in
      let same : Artifact tmp now = rw (own before_rename fs) valid in
      Served-if so (w.renamed && exists (now tmp)) _ _
        (returns (keeps renaming_done _ (rw (other, itself) (content-valid (now tmp) same))))
        (publish_lost-Served now)

  check_artifact-Served :
      (log output : Text) (fs : Files) → Served so (check_artifact w so tmp log output fs)
  unfolding check_artifact
  check_artifact-Served log output fs =
      let checked =
        w.others before_artifact_check (if w.can_log then write_file fs log output else fs) in
      elim (Bool-cases (is_valid_elf_shared_object (checked tmp))) [
        | inl valid ↦ rw valid (publish-Served checked valid)
        | inr broken ↦ rw broken throws
      ]

  after_nvcc-Served :
      (log : Text) (run : Option Text × Files) → Served so (after_nvcc w so tmp log run)
  unfolding after_nvcc
  after_nvcc-Served log (none, fs) = throws
  after_nvcc-Served log (some output, fs) = check_artifact-Served log output fs

pub valid-exists :
    (file : Option Text) → is_valid_elf_shared_object file ≡ true → exists file ≡ true
unfolding is_valid_elf_shared_object
valid-exists none valid = absurd (false≢true valid)
valid-exists (some content) valid = refl

module _ (w : Outside) (r : Request) (nvcc dir hash : Text)
    (keeps : Keeps w (so_path dir hash)) where
  compile-Served :
      (fs : Files)
      → Own w (make_temp_so_path dir hash w.process_and_thread)
      → Served (so_path dir hash) (compile w r nvcc dir hash fs)
  unfolding compile
  compile-Served fs own = Served-if _ _ _ _ throws (
      after_nvcc-Served w (so_path dir hash) (make_temp_so_path dir hash w.process_and_thread)
        (so_path-temp dir hash w.process_and_thread) keeps own _ _)

  lookup-Served :
      (fs : Files)
      → Own w (make_temp_so_path dir hash w.process_and_thread)
      → Served (so_path dir hash) (lookup_or_compile w r nvcc dir hash fs)
  unfolding lookup_or_compile
  lookup-Served fs own =
      let checked = w.others before_check (w.others before_lookup fs) in
      Served-if _ (exists (w.others before_lookup fs (so_path dir hash))) _ _
        (elim (Bool-cases (is_valid_elf_shared_object (checked (so_path dir hash)))) [
          | inl valid ↦ rw valid (returns (keeps before_hit checked valid))
          | inr broken ↦ rw broken (compile-Served _ own)
        ])
        (compile-Served _ own)

  -- A valid artifact is found, whatever other workers do that keep it.
  pub lookup_hit :
      (fs : Files)
      → Artifact (so_path dir hash) fs
      → (gs : Files) × (lookup_or_compile w r nvcc dir hash fs ≡ compiled (so_path dir hash) gs)
        × Artifact (so_path dir hash) gs
  unfolding lookup_or_compile
  lookup_hit fs valid =
      let looked = w.others before_lookup fs in
      let first = keeps before_lookup fs valid in
      let second = keeps before_check looked first in
      (
        w.others before_hit (w.others before_check looked),
        rw (valid-exists (looked (so_path dir hash)) first, second) refl,
        keeps before_hit (w.others before_check looked) second,
      )

-- The digest of what the request, the compiler and the files give, where it can be had
unfoldable pub cache_key : Outside → Request → Files → Option Text
cache_key w r fs =
    let nvcc = find_nvcc w.nvcc_var w.cudacxx_var in
    elim (w.version nvcc) [
      | none ↦ none
      | some nvcc_identity ↦ w.sha256_hex (hash_input fs nvcc nvcc_identity r)
    ]

pub jit_compile-cache_key :
    (w : Outside) (r : Request) (fs : Files) (hash : Text)
    → cache_key w r fs ≡ some hash
    → jit_compile w r fs
      ≡ lookup_or_compile w r (find_nvcc w.nvcc_var w.cudacxx_var) (cache_dir w) hash fs
unfolding cache_key jit_compile
jit_compile-cache_key w r fs hash e =
    elim (Option-cases (w.version (find_nvcc w.nvcc_var w.cudacxx_var))) [
      | inl lost ↦ (let bad = rw (cache_key, lost) at e in cc)
      | inr (identity, v) ↦
          (let digest = rw (cache_key, v) at e in rw (jit_compile, v, digest) refl)
    ]

from : {so p : Text} {gs : Files} → Served so (compiled p gs) → (p ≡ so) × Artifact so gs
from (returns valid) = (refl, valid)

served :
    {so p : Text} {gs : Files} {c : Compiled}
    → Served so c
    → c ≡ compiled p gs
    → (p ≡ so) × Artifact so gs
served {so} h e = from (subst (Served so) e h)

-- Where other workers keep a valid artifact under the digest's path and leave this worker's temporary file
-- alone, but do whatever else between any two uses of the files, and the compiler whatever it does: if
-- `jit_compile` returns a path, it is the digest's path and a shared object stands under it, also where the
-- rename lost to another worker; and a later call that comes to the same digest in the same directory, with
-- other workers that keep the artifact, finds it: it returns that path again, with a shared object under it.
pub jit_compile_lem :
    (w : Outside) (r : Request) (fs : Files) (hash p : Text) (gs : Files) (w' : Outside)
    (r' : Request)
    → cache_key w r fs ≡ some hash
    → Keeps w (so_path (cache_dir w) hash)
    → Own w (make_temp_so_path (cache_dir w) hash w.process_and_thread)
    → jit_compile w r fs ≡ compiled p gs
    → cache_key w' r' gs ≡ some hash
    → cache_dir w' ≡ cache_dir w
    → Keeps w' (so_path (cache_dir w') hash)
    → (p ≡ so_path (cache_dir w) hash)
      × Artifact p gs
      × (hs : Files) × (jit_compile w' r' gs ≡ compiled p hs)
      × Artifact p hs
jit_compile_lem w r fs hash p gs w' r' here keeps own e key dir keeps' =
    let nvcc = find_nvcc w.nvcc_var w.cudacxx_var in
    let run = sym (jit_compile-cache_key w r fs hash here) ∙ e in
    let (so, valid) = served (lookup-Served w r nvcc (cache_dir w) hash keeps fs own) run in
    let same : so_path (cache_dir w') hash ≡ p = ap (λ d. so_path d hash) dir ∙ sym so in
    let (hs, again, still) =
      lookup_hit w' r' (find_nvcc w'.nvcc_var w'.cudacxx_var) (cache_dir w') hash keeps' gs
        (rw dir valid) in
    (
      so,
      rw so valid,
      hs,
      jit_compile-cache_key w' r' gs hash key ∙ again ∙ ap (λ path. compiled path hs) same,
      subst (λ path. Artifact path hs) same still,
    )
