-- ===== src/Tests/Texts.antt =====
-- An order of ids, as the examples of lists need it.
use Prim.Native.Nat.{compare}
use Prim.Native.Char.{code}
use Prim.Native.String.{[], ◌∷◌}
use text.Mathlib.TextEquality.{codes_equal}
use text.Mathlib.TextPositions.{compare_self}
use snc_platform.Prelude.{
  String, ◌≡◌, refl, sym, ap, ◌∙◌, Bool, true, false, ◌||◌, ◌&&◌, ◌==◌, ltb, arith,
}
use snc_platform.Paging.Order.{IsStrict}

-- The order of texts by their characters.
unfoldable pub earlier : String → String → Bool
earlier [] [] = false
earlier [] (d ∷ t) = true
earlier (c ∷ s) [] = false
earlier (c ∷ s) (d ∷ t) =
    let rest = earlier s t in ltb (code c) (code d) || (code c == code d && rest)

earlier_irreflexive : (i : String) → earlier i i ≡ false
unfolding earlier
earlier_irreflexive [] = refl
earlier_irreflexive (c ∷ s) = ground (arith, earlier_irreflexive s)

earlier_asymmetric : (i j : String) → earlier i j ≡ true → earlier j i ≡ false
unfolding earlier
earlier_asymmetric [] [] h = refl
earlier_asymmetric [] (d ∷ t) h = refl
earlier_asymmetric (c ∷ s) [] h = cc h
earlier_asymmetric (c ∷ s) (d ∷ t) h = ground (arith, h, earlier_asymmetric s t)

earlier_transitive : (i j k : String) → earlier i j ≡ true → earlier j k ≡ true → earlier i k ≡ true
unfolding earlier
earlier_transitive [] [] k g h = cc g
earlier_transitive [] (d ∷ t) [] g h = cc h
earlier_transitive [] (d ∷ t) (e ∷ u) g h = refl
earlier_transitive (c ∷ s) [] k g h = cc g
earlier_transitive (c ∷ s) (d ∷ t) [] g h = cc h
earlier_transitive (c ∷ s) (d ∷ t) (e ∷ u) g h = ground (arith, g, h, earlier_transitive s t u)

earlier_connected : (i j : String) → earlier i j ≡ false → earlier j i ≡ false → i ≡ j
unfolding earlier
earlier_connected [] [] g h = refl
earlier_connected [] (d ∷ t) g h = cc g
earlier_connected (c ∷ s) [] g h = cc h
earlier_connected (c ∷ s) (d ∷ t) g h =
    let same : code c ≡ code d = ground (arith, g, h) in
    ap (λ x. x ∷ s) (codes_equal c d (ap (compare (code c)) (sym same) ∙ compare_self (code c)))
    ∙ ap (λ x. d ∷ x) (earlier_connected s t (ground (arith, g, same)) (ground (arith, h, same)))

pub earlier-IsStrict : IsStrict earlier
earlier-IsStrict = record {
  irreflexive = earlier_irreflexive;
  asymmetric = earlier_asymmetric;
  transitive = earlier_transitive;
  connected = earlier_connected;
}
