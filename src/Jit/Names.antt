-- ===== src/Jit/Names.antt =====
-- The strings of src/jit.cpp: its literals, the search in options, and the paths of an artifact.
use cohere_megakernel.Common.{
  ℕ, Bool, true, false, ◌&&◌, ◌||◌, Option, some, List, [], ◌∷◌, ◌++◌, ◌==◌, if◌then◌else◌,
}

abbrev pub Text : Type 0
Text = List ℕ

-- "nvcc"
abbrev pub nvcc_name : Text
nvcc_name = 110 ∷ 118 ∷ 99 ∷ 99 ∷ []

-- "--version"
abbrev pub flag_version : Text
flag_version = 45 ∷ 45 ∷ 118 ∷ 101 ∷ 114 ∷ 115 ∷ 105 ∷ 111 ∷ 110 ∷ []

-- "-shared"
abbrev pub flag_shared : Text
flag_shared = 45 ∷ 115 ∷ 104 ∷ 97 ∷ 114 ∷ 101 ∷ 100 ∷ []

-- "-Xcompiler"
abbrev pub flag_xcompiler : Text
flag_xcompiler = 45 ∷ 88 ∷ 99 ∷ 111 ∷ 109 ∷ 112 ∷ 105 ∷ 108 ∷ 101 ∷ 114 ∷ []

-- "-fPIC"
abbrev pub flag_fpic : Text
flag_fpic = 45 ∷ 102 ∷ 80 ∷ 73 ∷ 67 ∷ []

-- "-std=c++20"
abbrev pub flag_std : Text
flag_std = 45 ∷ 115 ∷ 116 ∷ 100 ∷ 61 ∷ 99 ∷ 43 ∷ 43 ∷ 50 ∷ 48 ∷ []

-- "-o"
abbrev pub flag_output : Text
flag_output = 45 ∷ 111 ∷ []

-- "-I"
abbrev pub flag_include : Text
flag_include = 45 ∷ 73 ∷ []

-- "-D"
abbrev pub flag_define : Text
flag_define = 45 ∷ 68 ∷ []

-- "-Xptxas"
abbrev pub ptxas_option : Text
ptxas_option = 45 ∷ 88 ∷ 112 ∷ 116 ∷ 120 ∷ 97 ∷ 115 ∷ []

-- "-v"
abbrev pub verbose_option : Text
verbose_option = 45 ∷ 118 ∷ []

-- "-Xptxas=-v"
abbrev pub ptxas_verbose : Text
ptxas_verbose = 45 ∷ 88 ∷ 112 ∷ 116 ∷ 120 ∷ 97 ∷ 115 ∷ 61 ∷ 45 ∷ 118 ∷ []

-- "lib"
abbrev pub lib_prefix : Text
lib_prefix = 108 ∷ 105 ∷ 98 ∷ []

-- ".so"
abbrev pub so_suffix : Text
so_suffix = 46 ∷ 115 ∷ 111 ∷ []

-- ".cu"
abbrev pub cu_suffix : Text
cu_suffix = 46 ∷ 99 ∷ 117 ∷ []

-- ".ptxas.txt"
abbrev pub log_suffix : Text
log_suffix = 46 ∷ 112 ∷ 116 ∷ 120 ∷ 97 ∷ 115 ∷ 46 ∷ 116 ∷ 120 ∷ 116 ∷ []

-- ".tmp."
abbrev pub tmp_infix : Text
tmp_infix = 46 ∷ 116 ∷ 109 ∷ 112 ∷ 46 ∷ []

-- "little_jit"
abbrev pub cache_name : Text
cache_name = 108 ∷ 105 ∷ 116 ∷ 116 ∷ 108 ∷ 101 ∷ 95 ∷ 106 ∷ 105 ∷ 116 ∷ []

-- `v && v[0] != '\0'` of each variable
unfoldable pub find_nvcc : Option Text → Option Text → Text
find_nvcc (some (c ∷ cs)) v = c ∷ cs
find_nvcc u (some (c ∷ cs)) = c ∷ cs
find_nvcc u v = nvcc_name

-- `s.find(t) != npos`
unfoldable pub starts_with : Text → Text → Bool
starts_with s [] = true
starts_with [] (b ∷ t) = false
starts_with (a ∷ s) (b ∷ t) = (a == b) && starts_with s t

unfoldable pub contains : Text → Text → Bool
contains [] t = starts_with [] t
contains (a ∷ s) t = starts_with (a ∷ s) t || contains s t

unfoldable pub has_ptxas_verbose : List Text → Bool
has_ptxas_verbose [] = false
has_ptxas_verbose (o ∷ os) =
    (contains o ptxas_option && contains o verbose_option) || has_ptxas_verbose os

unfoldable pub effective_options : List Text → List Text
effective_options options =
    if has_ptxas_verbose options then options else options ++ (ptxas_verbose ∷ [])

-- `path / name`: no separator is put behind one, or at the front.
unfoldable pub separated : Text → Text
separated [] = []
separated (c ∷ []) = if c == 47 then c ∷ [] else c ∷ 47 ∷ []
separated (c ∷ d ∷ cs) = c ∷ separated (d ∷ cs)

abbrev pub join : Text → Text → Text
join path name = separated path ++ name

-- The paths of an artifact
abbrev pub so_path : Text → Text → Text
so_path dir hash = join dir (lib_prefix ++ (hash ++ so_suffix))

abbrev pub cu_path : Text → Text → Text
cu_path dir hash = join dir (hash ++ cu_suffix)

abbrev pub make_ptxas_log_path : Text → Text → Text
make_ptxas_log_path dir hash = join dir (hash ++ log_suffix)

abbrev pub make_temp_so_path : Text → Text → Text → Text
make_temp_so_path dir hash process_and_thread =
    join dir (lib_prefix ++ (hash ++ (tmp_infix ++ (process_and_thread ++ so_suffix))))
