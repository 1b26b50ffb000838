-- ===== src/Jit/Working.antt =====
-- `jit_compile` of src/jit.cpp returns where the digest can be had, the files can be written and the
-- compiler works.
use cohere_megakernel.Common.{
  ℕ, ◌≡◌, Bool, true, false, ◌||◌, Option, none, some, List, [], ◌∷◌, ◌++◌, bytes_eq, if◌then◌else◌,
}
use cohere_megakernel.Jit.{Files, Request, Outside, exists, prefixed}
use cohere_megakernel.Jit.Names.{
  Text, flag_shared, flag_output, flag_include, flag_define, effective_options,
}
use cohere_megakernel.Jit.Artifact.{Artifact}

abbrev last_of : ℕ → Text → ℕ
last_of c [] = c
last_of c (d ∷ s) = last_of d s

abbrev pub member : Text → List Text → Bool
member x [] = false
member x (y ∷ ys) = bytes_eq x y || member x ys

-- The path behind the first `-o` of the arguments
unfoldable pub output_of : List Text → Option Text
output_of [] = none
output_of (a ∷ []) = none
output_of (a ∷ b ∷ rest) = if bytes_eq a flag_output then some b else output_of (b ∷ rest)

-- What the compiler is given besides the generated source
abbrev request_arguments : Request → List Text
request_arguments r =
    r.source_files
    ++ (prefixed flag_include r.include_paths
        ++ (prefixed flag_define r.defines ++ (effective_options r.options ++ r.flags)))

-- The arguments of a command line that asks for a shared object at `tmp` from the source at `cu`, with all
-- files, options and flags of the request
pub record IsCommand (r : Request) (cu tmp : Text) (arguments : List Text) : Type 0 where
  pub shared_object : member flag_shared arguments ≡ true
  pub output : output_of arguments ≡ some tmp
  pub source : member cu arguments ≡ true
  pub complete : (x : Text) → member x (request_arguments r) ≡ true → member x arguments ≡ true

-- The compiler ends well on any command line of the request where the generated code stands in its source
-- file, and where it ends well on a command line with `-shared` and `-o`, a shared object stands under the
-- path behind `-o`; the files can be written and moved.
pub record Working (w : Outside) (r : Request) (tmp : Text) : Type 0 where
  pub ends :
      (nvcc cu : Text) (arguments : List Text) (fs : Files)
      → IsCommand r cu tmp arguments
      → fs cu ≡ some r.code
      → exists (w.run (nvcc ∷ arguments) fs).0 ≡ true
  pub writes :
      (nvcc path : Text) (arguments : List Text) (fs : Files)
      → member flag_shared arguments ≡ true
      → output_of arguments ≡ some path
      → exists (w.run (nvcc ∷ arguments) fs).0 ≡ true
      → Artifact path (w.run (nvcc ∷ arguments) fs).1
  pub can_write : w.can_write ≡ true
  pub renamed : w.renamed ≡ true

abbrev pub arguments_of : List Text → List Text
arguments_of [] = []
arguments_of (a ∷ as_) = as_
