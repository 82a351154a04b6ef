-- ===== src/ContainerEnv/Order.antt =====
-- Go's order on strings, and lists sorted by it.
use vmdockerv.Base.{
  Bool, List, Text, [], ap₂, arith, false, not, refl, text_eq, true, ◌&&◌, ◌||◌, ◌∙◌, ◌∷◌, ◌≡◌,
}
use vmdockerv.ContainerEnv.{insert_sorted, sort, text_le}

pub text_le_total : (a b : Text) → text_le a b ≡ false → text_le b a ≡ true
unfolding text_le
text_le_total [] b h = ground arith
text_le_total (c ∷ a) [] h = refl
text_le_total (c ∷ a) (d ∷ b) h = ground (arith, text_le_total a b)

pub text_le_antisym : (a b : Text) → text_le a b ≡ true → text_le b a ≡ true → a ≡ b
unfolding text_le
text_le_antisym [] [] h k = refl
text_le_antisym [] (d ∷ b) h k = ground arith
text_le_antisym (c ∷ a) [] h k = ground arith
text_le_antisym (c ∷ a) (d ∷ b) h k = ground (arith, text_le_antisym a b)

pub text_le_trans : (a b c : Text) → text_le a b ≡ true → text_le b c ≡ true → text_le a c ≡ true
unfolding text_le
text_le_trans [] b c h k = refl
text_le_trans (x ∷ a) [] c h k = ground arith
text_le_trans (x ∷ a) (y ∷ b) [] h k = ground arith
text_le_trans (x ∷ a) (y ∷ b) (z ∷ c) h k = ground (arith, text_le_trans a b c)

abbrev pub text_lt : Text → Text → Bool
text_lt a b = text_le a b && not (text_eq a b)

text_lt_trans : (a b c : Text) → text_lt a b ≡ true → text_lt b c ≡ true → text_lt a c ≡ true
text_lt_trans a b c h k = ground (arith, text_le_trans a b c, text_le_antisym a b)

abbrev pub has_text : Text → List Text → Bool
has_text k [] = false
has_text k (j ∷ ks) = text_eq k j || has_text k ks

-- Every text of the list is above `k`.
abbrev pub AllAbove : Text → List Text → Type 0
AllAbove k [] = Unit
AllAbove k (j ∷ ks) = (text_lt k j ≡ true) × AllAbove k ks

-- In strictly ascending order.
abbrev pub IsAscending : List Text → Type 0
IsAscending [] = Unit
IsAscending (k ∷ ks) = AllAbove k ks × IsAscending ks

abbrev pub IsDistinct : List Text → Type 0
IsDistinct [] = Unit
IsDistinct (k ∷ ks) = (has_text k ks ≡ false) × IsDistinct ks

AllAbove-text_lt :
    (i k : Text) (ks : List Text) → text_lt i k ≡ true → AllAbove k ks → AllAbove i ks
AllAbove-text_lt i k [] h a = tt
AllAbove-text_lt i k (j ∷ ks) h a = (text_lt_trans i k j h a.0, AllAbove-text_lt i k ks h a.1)

insert_sorted-AllAbove :
    (i k : Text) (ks : List Text)
    → text_lt i k ≡ true
    → AllAbove i ks
    → AllAbove i (insert_sorted k ks)
unfolding insert_sorted
insert_sorted-AllAbove i k [] h a = (h, tt)
insert_sorted-AllAbove i k (j ∷ ks) h a = ground (arith, insert_sorted-AllAbove i k ks h)

insert_sorted-IsAscending :
    (k : Text) (ks : List Text)
    → has_text k ks ≡ false
    → IsAscending ks
    → IsAscending (insert_sorted k ks)
unfolding insert_sorted
insert_sorted-IsAscending k [] h a = (tt, tt)
insert_sorted-IsAscending k (j ∷ ks) h a = ground (
  arith,
  insert_sorted-IsAscending k ks,
  insert_sorted-AllAbove j k ks,
  AllAbove-text_lt k j ks,
  text_le_total k j,
)

pub has_text-insert_sorted :
    (i k : Text) (ks : List Text) → has_text i (insert_sorted k ks) ≡ (text_eq i k || has_text i ks)
unfolding insert_sorted
has_text-insert_sorted i k [] = refl
has_text-insert_sorted i k (j ∷ ks) = ground (arith, has_text-insert_sorted i k ks)

pub has_text-sort : (i : Text) (ks : List Text) → has_text i (sort ks) ≡ has_text i ks
unfolding sort
has_text-sort i [] = refl
has_text-sort i (k ∷ ks) = ground (arith, has_text-insert_sorted i k (sort ks), has_text-sort i ks)

pub sort-IsAscending : (ks : List Text) → IsDistinct ks → IsAscending (sort ks)
unfolding sort
sort-IsAscending [] h = tt
sort-IsAscending (k ∷ ks) h =
    insert_sorted-IsAscending k (sort ks) (has_text-sort k ks ∙ h.0) (sort-IsAscending ks h.1)

AllAbove-has_text :
    (k i : Text) (ks : List Text) → AllAbove k ks → has_text i ks ≡ true → text_lt k i ≡ true
AllAbove-has_text k i [] a h = ground arith
AllAbove-has_text k i (j ∷ ks) a h = ground (arith, AllAbove-has_text k i ks a.1)

-- Sorted lists with the same members are equal.
pub IsAscending-unique :
    (xs ys : List Text)
    → IsAscending xs
    → IsAscending ys
    → ((k : Text) → has_text k xs ≡ has_text k ys)
    → xs ≡ ys
IsAscending-unique [] [] a b h = refl
IsAscending-unique [] (y ∷ ys) a b h = ground (arith, h y)
IsAscending-unique (x ∷ xs) [] a b h = ground (arith, h x)
IsAscending-unique (x ∷ xs) (y ∷ ys) a b h =
    ap₂ ◌∷◌ same_head (IsAscending-unique xs ys a.1 b.1 same_tail)
  where
    same_head : x ≡ y
    same_head = ground (
      arith,
      h x,
      h y,
      AllAbove-has_text x y xs a.0,
      AllAbove-has_text y x ys b.0,
      text_le_antisym x y,
    )

    same_tail : (k : Text) → has_text k xs ≡ has_text k ys
    same_tail k =
        ground (arith, same_head, h k, AllAbove-has_text x k xs a.0, AllAbove-has_text y k ys b.0)
