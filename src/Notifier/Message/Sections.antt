-- ===== src/Notifier/Message/Sections.antt =====
-- What the sections of a message keep of it.
use mathlib.Core.List.{append_assoc}
use k8s_mcp.Base.{String, ◌≡◌, refl, ap, ◌∙◌, Bool-cases, inl, inr, List, [], ◌∷◌, ◌++◌}
use k8s_mcp.Notifier.Message.{is_heading, blocks}

abbrev pub concat : List (List String) → List String
concat [] = []
concat (b ∷ bs) = b ++ concat bs

-- The blocks together are the lines, in order.
pub concat-blocks : (current ls : List String) → concat (blocks current ls) ≡ current ++ ls
unfolding blocks
concat-blocks [] [] = refl
concat-blocks (c ∷ cs) [] = refl
concat-blocks [] (l ∷ ls) = concat-blocks (l ∷ []) ls
concat-blocks (c ∷ cs) (l ∷ ls) = elim (Bool-cases (is_heading l)) [
  | inl e ↦ rw (blocks, e) (ap (λ xs. (c ∷ cs) ++ xs) (concat-blocks (l ∷ []) ls))
  | inr e ↦
      rw (blocks, e) (concat-blocks ((c ∷ cs) ++ l ∷ []) ls ∙ append_assoc (c ∷ cs) (l ∷ []) ls)
]
