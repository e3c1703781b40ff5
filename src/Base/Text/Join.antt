-- ===== src/Base/Text/Join.antt =====
-- Where a part stands in a joined text.
use text.Mathlib.TextLemmas.{append_assoc, append-nil, nil-append}
use mathlib.Core.Path.{◌≡◌, sym, ap, ◌∙◌}
use mathlib.Core.List.{List, [], ◌∷◌, ◌++◌}
use Prim.Native.String.{String, ◌++◌ as ◌<>◌}
use nlsqlc.Base.Text.{join}

-- the text before the part, and the text behind it
abbrev pub join_before : String → List String → String
join_before sep [] = ""
join_before sep (x ∷ xs) = x <> (sep <> join_before sep xs)

abbrev pub join_after : String → List String → String
join_after sep [] = ""
join_after sep (y ∷ ys) = sep <> join sep (y ∷ ys)

-- `sep.join(xs + [w] + ys)` has `w` between the other parts.
pub join-append :
    (sep : String) (xs : List String) (w : String) (ys : List String)
    → join sep (xs ++ w ∷ ys) ≡ join_before sep xs <> (w <> join_after sep ys)
unfolding join
join-append sep [] w [] = sym (nil-append (w <> "") ∙ append-nil w)
join-append sep [] w (y ∷ ys) = sym (nil-append _)
join-append sep (x ∷ []) w ys =
    ap (λ t. x <> (sep <> t)) (join-append sep [] w ys) ∙ simp append_assoc
join-append sep (x ∷ x' ∷ xs) w ys =
    ap (λ t. x <> (sep <> t)) (join-append sep (x' ∷ xs) w ys) ∙ simp append_assoc
