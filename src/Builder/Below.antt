-- ===== src/Builder/Below.antt =====
-- What it is for a path to lie below the repository's root, told by the path's parts and not by the
-- test of services/builder/internal/langgraph/langgraph.go, and that `isPathWithinRoot` ensures it.
use langopen.Prelude.{
  ℕ, ◌≡◌, refl, sym, ◌∙◌, Bool, true, false, Option, none, some, List, [], ◌∷◌, any, nat_eq,
  if◌then◌else◌, Bool-cases, inl, inr, arith,
}
use langopen.Prelude.Text.{Codes, codes, codes_eq, has_prefix}
use langopen.Builder.Langgraph.{Files, within}
use langopen.Builder.Resolve.{is_path_within_root}

-- The part of a path before its first slash.
unfoldable pub first_part : Codes → Codes
first_part [] = []
first_part (c ∷ s) = let rest = first_part s in if nat_eq c b'/' then [] else c ∷ rest

abbrev add_code : ℕ → List Codes → List Codes
add_code c [] = (c ∷ []) ∷ []
add_code c (part ∷ parts) = (c ∷ part) ∷ parts

-- The parts of a path between its slashes.
unfoldable pub parts_of : Codes → List Codes
parts_of [] = [] ∷ []
parts_of (c ∷ s) = let rest = parts_of s in if nat_eq c b'/' then [] ∷ rest else add_code c rest

-- Some part of the path leads up.
abbrev pub leads_up : Codes → Bool
leads_up path = any (codes_eq (codes "..")) (parts_of path)

-- What `path/filepath` documents of `Join` and `Rel`.
pub record IsLexical (F : Files) : Type 0 where
  -- `Join` answers a clean path.
  pub joined : (a b : Codes) → F.clean (F.join a b) ≡ F.join a b
  -- `Join(root, Rel(root, path))` is equivalent to `path`.
  pub relative :
      (root path rel : Codes) → F.rel root path ≡ some rel → F.join root rel ≡ F.clean path
  -- `Rel` answers a clean path, which leads up at its front if at all.
  pub fronted :
      (root path rel : Codes)
      → F.rel root path ≡ some rel
      → codes_eq (first_part rel) (codes "..") ≡ false
      → leads_up rel ≡ false

-- The path is the root, and below it a way that never leads up.
abbrev pub IsBelow : Files → Codes → Codes → Type 0
IsBelow F root path = (way : Codes) × (path ≡ F.join root way) × (leads_up way ≡ false)

leading : (rel : Codes) → codes_eq (first_part rel) (codes "..") ≡ true → within (some rel) ≡ false
unfolding first_part codes_eq has_prefix
leading [] h = ground (arith, h)
leading (a ∷ []) h = ground (arith, h)
leading (a ∷ b ∷ []) h = ground (arith, h)
leading (a ∷ b ∷ c ∷ s) h = ground (arith, h)

found-IsBelow :
    (F : Files) (root path : Codes) (rel : Option Codes)
    → IsLexical F
    → F.clean path ≡ path
    → F.rel root path ≡ rel
    → within rel ≡ true
    → IsBelow F root path
found-IsBelow F root path none law clean e h = cc h
found-IsBelow F root path (some rel) law clean e h =
    elim (Bool-cases (codes_eq (first_part rel) (codes ".."))) [
      | inl up ↦ cc (h, leading rel up)
      | inr level ↦
          (rel, sym (law.relative root path rel e ∙ clean), law.fronted root path rel e level)
    ]

-- A joined path that `isPathWithinRoot` accepts lies below the root.
pub within-IsBelow :
    (F : Files) (root path : Codes)
    → IsLexical F
    → is_path_within_root F root (F.join root path) ≡ true
    → IsBelow F root (F.join root path)
unfolding is_path_within_root
within-IsBelow F root path law h =
    found-IsBelow F root (F.join root path) (F.rel root (F.join root path)) law
      (law.joined root path) refl h
