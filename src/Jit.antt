-- ===== src/Jit.antt =====
-- `jit_compile` of src/jit.cpp, the driver of the compiler with its cache of shared objects. A string is its
-- list of bytes, and the file system a function from paths. Processes, the digest, the environment and what
-- other workers do to the files between two uses of them are parameters. Diagnostics on stderr are left out,
-- and so is a failure to make the cache's directory.
pub mod Artifact
pub mod Names
pub mod Working
mod Tests
use cohere_megakernel.Common.{
  ℕ, zero, suc, ◌≡◌, Bool, true, false, ◌&&◌, ◌||◌, not, Option, none, some, List, [], ◌∷◌, ◌++◌,
  ◌==◌, bytes_eq, if◌then◌else◌,
}
use cohere_megakernel.Jit.Names.{
  Text, nvcc_name, flag_version, flag_shared, flag_xcompiler, flag_fpic, flag_std, flag_output,
  flag_include, flag_define, ptxas_option, verbose_option, ptxas_verbose, lib_prefix, so_suffix,
  cu_suffix, log_suffix, tmp_infix, cache_name, find_nvcc, starts_with, contains, has_ptxas_verbose,
  effective_options, separated, join, so_path, cu_path, make_ptxas_log_path, make_temp_so_path,
}

abbrev pub Files : Type 0
Files = Text → Option Text

pub data JitError : Type 0 where
  digest_failed version_failed cannot_write nvcc_failed invalid_shared_object publish_failed :
      JitError

-- A call returns a path, or throws, with the files as they are by then.
pub data Compiled : Type 0 where
  compiled : Text → Files → Compiled
  failed : JitError → Files → Compiled

pub record Request : Type 0 where
  pub code : Text
  pub source_files : List Text
  pub include_paths : List Text
  pub defines : List Text
  pub options : List Text
  pub flags : List Text
  pub hash_files : List Text

-- The moments between two uses of the files by `jit_compile`, in which other workers may act: in front of
-- the lookup, of the check of what it found, of the return of a hit and of the removal of a broken file, in
-- front of the source file, of the check of the compiler's artifact and of the rename, behind the rename,
-- and, where it fails, in front of the lookup, of the check, of the removal and of the return
pub data Moment : Type 0 where
  before_lookup before_check before_hit before_removal before_source before_artifact_check
        before_rename renaming_done before_second_lookup before_second_check before_second_removal
        before_second_return :
      Moment

-- What a call meets outside: the variables, the output of `nvcc --version`, the digest, the rest of the
-- temporary file's name, whether the files can be written, the compiler, which may fail and meets the work
-- of other workers, whether the rename succeeds, and what other workers do to the files at each moment.
pub record Outside : Type 0 where
  pub nvcc_var : Option Text
  pub cudacxx_var : Option Text
  pub cache_dir_var : Option Text
  pub temp_dir : Text
  pub version : Text → Option Text
  pub sha256_hex : Text → Option Text
  pub process_and_thread : Text
  pub can_write : Bool
  pub can_log : Bool
  pub run : List Text → Files → Option Text × Files
  pub renamed : Bool
  pub others : Moment → Files → Files

abbrev pub write_file : Files → Text → Text → Files
write_file fs path content p = if bytes_eq p path then some content else fs p

abbrev pub remove_file : Files → Text → Files
remove_file fs path p = if bytes_eq p path then none else fs p

unfoldable pub is_valid_elf_shared_object : Option Text → Bool
is_valid_elf_shared_object (some (a ∷ b ∷ c ∷ d ∷ rest)) =
    a == 0x7f && (b == 69 && (c == 76 && d == 70))
is_valid_elf_shared_object content = false

abbrev pub exists : Option Text → Bool
exists none = false
exists (some content) = true

-- A string and its terminator
abbrev pub terminated : Text → Text
terminated s = s ++ (0 ∷ [])

unfoldable pub terminated_all : List Text → Text
terminated_all [] = []
terminated_all (s ∷ ss) = terminated s ++ terminated_all ss

abbrev pub content_of : Option Text → Text
content_of none = []
content_of (some content) = content

-- Each file's name and content
unfoldable pub files_with_content : Files → List Text → Text
files_with_content fs [] = []
files_with_content fs (path ∷ paths) =
    terminated path ++ (terminated (content_of (fs path)) ++ files_with_content fs paths)

unfoldable pub hash_input : Files → Text → Text → Request → Text
hash_input fs nvcc nvcc_identity r =
    terminated nvcc
    ++ (terminated nvcc_identity
        ++ (terminated r.code
            ++ (files_with_content fs r.source_files
                ++ (files_with_content fs r.hash_files
                    ++ (terminated_all r.include_paths
                        ++ (terminated_all r.defines
                            ++ (terminated_all (effective_options r.options)
                                ++ terminated_all r.flags)))))))

unfoldable pub cache_dir : Outside → Text
cache_dir w = elim w.cache_dir_var [ some env ↦ env | none ↦ join w.temp_dir cache_name ]

abbrev pub prefixed : Text → List Text → List Text
prefixed p [] = []
prefixed p (s ∷ ss) = (p ++ s) ∷ prefixed p ss

unfoldable pub nvcc_argv : Text → Text → Text → Request → List Text
nvcc_argv nvcc tmp cu r =
    (nvcc ∷ flag_shared ∷ flag_xcompiler ∷ flag_fpic ∷ flag_std ∷ flag_output ∷ tmp ∷ cu ∷ [])
    ++ (r.source_files
        ++ (prefixed flag_include r.include_paths
            ++ (prefixed flag_define r.defines ++ (effective_options r.options ++ r.flags))))

-- Behind a rename that failed
unfoldable pub publish_lost : Outside → Text → Text → Files → Compiled
publish_lost w so tmp fs =
    let looked = w.others before_second_lookup fs in
    let checked = w.others before_second_check looked in
    if exists (looked so) && is_valid_elf_shared_object (checked so)
    then compiled so
        (w.others before_second_return (remove_file (w.others before_second_removal checked) tmp))
    else failed publish_failed (remove_file checked tmp)

-- The rename, which fails without its file, and what follows it
unfoldable pub publish : Outside → Text → Text → Files → Compiled
publish w so tmp fs =
    let now = w.others before_rename fs in
    if w.renamed && exists (now tmp)
    then compiled so
        (w.others renaming_done (remove_file (write_file now so (content_of (now tmp))) tmp))
    else publish_lost w so tmp now

-- Behind the compiler, with the log of its output
unfoldable pub check_artifact : Outside → Text → Text → Text → Text → Files → Compiled
check_artifact w so tmp log output fs =
    let logged = if w.can_log then write_file fs log output else fs in
    let checked = w.others before_artifact_check logged in
    if is_valid_elf_shared_object (checked tmp)
    then publish w so tmp checked
    else failed invalid_shared_object (remove_file checked tmp)

-- What follows the compiler, whether it failed or not
unfoldable pub after_nvcc : Outside → Text → Text → Text → Option Text × Files → Compiled
after_nvcc w so tmp log (none, fs) = failed nvcc_failed (remove_file fs tmp)
after_nvcc w so tmp log (some output, fs) = check_artifact w so tmp log output fs

-- The compilation of an artifact that is not there
unfoldable pub compile : Outside → Request → Text → Text → Text → Files → Compiled
compile w r nvcc dir hash fs =
    let tmp = make_temp_so_path dir hash w.process_and_thread in
    let cu = cu_path dir hash in
    if not w.can_write
    then failed cannot_write fs
    else after_nvcc w (so_path dir hash) tmp (make_ptxas_log_path dir hash)
        (w.run (nvcc_argv nvcc tmp cu r) (write_file (w.others before_source fs) cu r.code))

-- The lookup in the cache
unfoldable pub lookup_or_compile : Outside → Request → Text → Text → Text → Files → Compiled
lookup_or_compile w r nvcc dir hash fs =
    let so = so_path dir hash in
    let looked = w.others before_lookup fs in
    let checked = w.others before_check looked in
    if exists (looked so)
    then (if is_valid_elf_shared_object (checked so)
        then compiled so (w.others before_hit checked)
        else compile w r nvcc dir hash (remove_file (w.others before_removal checked) so))
    else compile w r nvcc dir hash looked

unfoldable pub jit_compile : Outside → Request → Files → Compiled
jit_compile w r fs =
    let nvcc = find_nvcc w.nvcc_var w.cudacxx_var in
    elim (w.version nvcc) [
      | none ↦ failed version_failed fs
      | some nvcc_identity ↦ elim (w.sha256_hex (hash_input fs nvcc nvcc_identity r)) [
        | none ↦ failed digest_failed fs
        | some hash ↦ lookup_or_compile w r nvcc (cache_dir w) hash fs
      ]
    ]
