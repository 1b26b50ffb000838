-- ===== src/Jit/Tests.antt =====
-- The theorems about `jit_compile` of src/jit.cpp at a small request, and a collision of its keys.
use cohere_megakernel.Common.{
  ◌≡◌, refl, true, false, Option, none, some, List, [], ◌∷◌, ◌++◌, bytes_eq, if◌then◌else◌,
}
use cohere_megakernel.Jit.{
  Files, Compiled, compiled, failed, Request, Outside, is_valid_elf_shared_object, hash_input,
  terminated_all, Moment, before_removal, write_file, exists, cache_dir, jit_compile,
  lookup_or_compile, compile, after_nvcc, check_artifact, publish, nvcc_argv,
}
use cohere_megakernel.Jit.Names.{
  Text, effective_options, has_ptxas_verbose, so_path, make_temp_so_path, separated,
}
use cohere_megakernel.Jit.Artifact.{Artifact, cache_key, jit_compile_lem}
use cohere_megakernel.Jit.Working.{Working, output_of, arguments_of}

abbrev concat : List Text → Text
concat [] = []
concat (s ∷ ss) = s ++ concat ss

abbrev request : Request
request = record {
  code = 120 ∷ [];
  source_files = [];
  include_paths = (97 ∷ []) ∷ [];
  defines = [];
  options = [];
  flags = [];
  hash_files = [];
}

abbrev no_files : Files
no_files p = none

-- A shared object
abbrev elf : Text
elf = 127 ∷ 69 ∷ 76 ∷ 70 ∷ []

abbrev hash : Text
hash = 104 ∷ []

abbrev dir : Text
dir = 100 ∷ []

-- A compiler that writes a shared object to the path behind `-o`
unfoldable compiled_to : Option Text → Files → Option Text × Files
compiled_to (some path) fs = (some [], write_file fs path elf)
compiled_to none fs = (none, fs)

unfoldable compiler : List Text → Files → Option Text × Files
unfolding compiled_to
compiler argv fs = compiled_to (output_of (arguments_of argv)) fs

-- A world with that compiler, a digest that is always the same, and workers that do nothing
abbrev world : Outside
world = record {
  nvcc_var = none;
  cudacxx_var = none;
  cache_dir_var = some dir;
  temp_dir = [];
  version = λ nvcc. some [];
  sha256_hex = λ text. some hash;
  process_and_thread = 49 ∷ [];
  can_write = true;
  can_log = true;
  run = compiler;
  renamed = true;
  others = λ m fs. fs;
}

abbrev tmp : Text
tmp = make_temp_so_path dir hash world.process_and_thread

world-key : cache_key world request no_files ≡ some hash
unfolding cache_key
world-key = refl

abbrev files_of : Compiled → Files
files_of (compiled p fs) = fs
files_of (failed e fs) = fs

-- The files behind the first call
abbrev made : Files
made = files_of (jit_compile world request no_files)

first_call : jit_compile world request no_files ≡ compiled (so_path dir hash) made
unfolding jit_compile lookup_or_compile compile after_nvcc check_artifact publish compiler
    compiled_to nvcc_argv output_of is_valid_elf_shared_object cache_dir bytes_eq separated
first_call = refl

made-key : cache_key world request made ≡ some hash
unfolding cache_key
made-key = refl

jit_compile_lem_example :
    (so_path dir hash ≡ so_path dir hash)
    × Artifact (so_path dir hash) made
    × (hs : Files) × (jit_compile world request made ≡ compiled (so_path dir hash) hs)
    × Artifact (so_path dir hash) hs
unfolding cache_dir
jit_compile_lem_example =
    jit_compile_lem world request no_files hash (so_path dir hash) made world request world-key
      (λ m fs valid. valid) (λ m fs. refl) first_call made-key refl λ m fs valid. valid

-- A worker that found a broken file removes the artifact that another one has put there in the meantime: here
-- the whole call of `world` falls between its check and its removal, and it cannot write a new source file.
abbrev broken_files : Files
broken_files p = if bytes_eq p (so_path dir hash) then some [] else none

unfoldable overtaken : Moment → Files → Files
overtaken before_removal fs = files_of (jit_compile world request fs)
overtaken m fs = fs

abbrev slow_world : Outside
slow_world = record world { can_write = false; others = overtaken }

published_meanwhile :
    is_valid_elf_shared_object (overtaken before_removal broken_files (so_path dir hash)) ≡ true
unfolding overtaken jit_compile lookup_or_compile compile after_nvcc check_artifact publish compiler
    compiled_to nvcc_argv output_of is_valid_elf_shared_object cache_dir bytes_eq separated
published_meanwhile = refl

artifact_removed :
    exists (files_of (jit_compile slow_world request broken_files) (so_path dir hash)) ≡ false
unfolding overtaken jit_compile lookup_or_compile compile after_nvcc check_artifact publish compiler
    compiled_to nvcc_argv output_of is_valid_elf_shared_object cache_dir bytes_eq separated
artifact_removed = refl

-- A directory for includes against a macro of that name: one key, two command lines
abbrev defining : Request
defining = record request { include_paths = []; defines = (97 ∷ []) ∷ [] }

keys_collide : hash_input no_files [] [] request ≡ hash_input no_files [] [] defining
unfolding hash_input terminated_all
keys_collide = refl

commands_differ :
    bytes_eq (concat (nvcc_argv [] [] [] request)) (concat (nvcc_argv [] [] [] defining)) ≡ false
unfolding nvcc_argv effective_options has_ptxas_verbose bytes_eq
commands_differ = refl
