-- ===== src/LogicTests.antt =====
-- A logic with the laws, in which texts that are numerals are their numbers, and the meaning of an
-- optimized tree in it.
use nlsqlc.Base.{zero, suc, String, Option, none, some, List, [], ◌∷◌, if◌then◌else◌, ◌==◌}
use nlsqlc.Base.Text.{contains}
use nlsqlc.Base.Int.{ℤ, pos, eq_ℤ, ◌+ℤ◌, ◌-ℤ◌, ◌*ℤ◌, ◌/ℤ◌, int_of_text}
use nlsqlc.Samples.{plain}
use nlsqlc.Sexpr.{Atom, str, int, flt, Node, atom, list, cons, nil, word}
use nlsqlc.Optimizer.{Arith, arith_op}
use nlsqlc.Optimizer.Logic.{Logic}

data Meaning : Type 0 where
  number : ℤ → Meaning
  opaque : Meaning

abbrev of_numeral : Option ℤ → Meaning
of_numeral none = opaque
of_numeral (some i) = number i

abbrev of_text : String → Meaning
of_text s =
    if s == "true"
    then number (pos 1)
    else if s == "false"
    then number (pos 0)
    else if contains "." s
    then opaque
    else of_numeral (int_of_text plain.digit s)

abbrev of_atom : Atom → Meaning
of_atom (str s) = of_text s
of_atom (int i) = number i
of_atom (flt f) = opaque

abbrev negated : Meaning → Meaning
negated (number (pos zero)) = number (pos 1)
negated (number (pos (suc zero))) = number (pos 0)
negated v = v

-- 0 wins, 1 gives way, and two others give no number
abbrev both : Meaning → Meaning → Meaning
both (number (pos zero)) w = number (pos 0)
both v (number (pos zero)) = number (pos 0)
both (number (pos (suc zero))) w = w
both v (number (pos (suc zero))) = v
both v w = opaque

abbrev one_of : Meaning → Meaning → Meaning
one_of v w = negated (both (negated v) (negated w))

abbrev compute : Option Arith → ℤ → ℤ → Meaning
compute none i j = if eq_ℤ i j then number (pos 1) else number (pos 0)
compute (some Arith.add) i j = number (i +ℤ j)
compute (some Arith.sub) i j = number (i -ℤ j)
compute (some Arith.mul) i j = number (i *ℤ j)
compute (some Arith.div) i j = number (i /ℤ j)

abbrev opaque_result : Option Arith → Meaning
opaque_result none = number (pos 1)
opaque_result (some op) = opaque

abbrev applied : Option Arith → List Meaning → Meaning
applied op (number i ∷ number j ∷ []) = compute op i j
applied op (opaque ∷ opaque ∷ []) = opaque_result op
applied op vs = opaque

abbrev numbers : Logic
numbers = record {
  Value = Meaning;
  yes = number (pos 1);
  no = number (pos 0);
  negate = negated;
  meet = both;
  join = one_of;
  of_atom = of_atom;
  apply = λ op vs. applied (arith_op op) vs;
  plain = λ vs. opaque;
}

-- (and (not (not (lt x 5))) (eq 3 (add 1 2)) true)
abbrev test : Node
test =
    let less = list (cons (word "lt") (cons (word "x") (cons (word "5") nil))) in
    let sum = list (cons (word "add") (cons (word "1") (cons (word "2") nil))) in
    let twice = list (cons (word "not") (cons (list (cons (word "not") (cons less nil))) nil)) in
    list (
      cons (word "and") (
        cons twice (
          cons (list (cons (word "eq") (cons (word "3") (cons sum nil))))
            (cons (word "true") nil))))

abbrev folded_test : Node
folded_test =
    let less = list (cons (word "lt") (cons (word "x") (cons (word "5") nil))) in
    list (
      cons (word "and") (
        cons less
          (cons (list (cons (word "eq") (cons (word "3") (cons (atom (int (pos 3))) nil)))) nil)))
