-- ===== src/Chat/Messages/Tags.antt =====
-- What the removal of tags leaves of a message.
use snc_platform.Prelude.{
  ℕ, ◌≤◌, ◌≡◌, refl, ap, Bool, true, false, List, [], ◌∷◌, ◌&&◌, ◌||◌, ◌==◌, Bool-cases, inl, inr,
  length, arith,
}
use snc_platform.Chat.Messages.{has_gt, strip, strip_tags}

-- Somewhere in the text a `<` has a `>` behind it.
unfoldable pub has_tag : List ℕ → Bool
has_tag [] = false
has_tag (c ∷ cs) = (c == b'<' && has_gt cs) || has_tag cs

has_gt-strip : (b : Bool) (cs : List ℕ) → has_gt cs ≡ false → has_gt (strip b cs) ≡ false
unfolding strip
has_gt-strip b [] e = refl
has_gt-strip true (c ∷ cs) e = ground (arith, has_gt-strip true cs, has_gt-strip false cs)
has_gt-strip false (c ∷ cs) e = ground (arith, has_gt-strip true cs, has_gt-strip false cs)

has_tag-strip : (b : Bool) (cs : List ℕ) → has_tag (strip b cs) ≡ false
unfolding strip has_tag
has_tag-strip b [] = refl
has_tag-strip true (c ∷ cs) = ground (arith, has_tag-strip true cs, has_tag-strip false cs)
has_tag-strip false (c ∷ cs) =
    ground (arith, has_tag-strip true cs, has_tag-strip false cs, has_gt-strip false cs)

strip-eq : (cs : List ℕ) → has_tag cs ≡ false → strip false cs ≡ cs
unfolding strip has_tag
strip-eq [] e = refl
strip-eq (c ∷ cs) e = elim (Bool-cases (c == b'<' && has_gt cs)) [
  | inl tag ↦ cc (rw tag at e)
  | inr plain ↦ rw plain (ap (λ t. c ∷ t) (strip-eq cs (rw plain at e)))
]

length-strip : (b : Bool) (cs : List ℕ) → length (strip b cs) ≤ length cs
unfolding strip
length-strip b [] = omega arith
length-strip true (c ∷ cs) = ground (arith, length-strip true cs, length-strip false cs)
length-strip false (c ∷ cs) = ground (arith, length-strip true cs, length-strip false cs)

-- What `strip_tags` leaves of a text has no tag, no `<` with a `>` behind it; it is no
-- longer than the text; removing the tags once more changes nothing, nor does it change a text
-- without tags.
pub strip_tags-has_tag :
    (text plain : List ℕ)
    → has_tag plain ≡ false
    → (has_tag (strip_tags text) ≡ false)
      × (length (strip_tags text) ≤ length text)
      × (strip_tags (strip_tags text) ≡ strip_tags text)
      × (strip_tags plain ≡ plain)
unfolding strip_tags
strip_tags-has_tag text plain e = (
  has_tag-strip false text,
  length-strip false text,
  strip-eq (strip false text) (has_tag-strip false text),
  strip-eq plain e,
)
