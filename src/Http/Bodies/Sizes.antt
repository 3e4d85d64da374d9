-- ===== src/Http/Bodies/Sizes.antt =====
-- How long the arrays are that the log shows.
use poc_hydra_auth.Prelude.{ℕ, zero, suc, ◌+◌, ◌-◌, ◌≤◌, inl, inr, leb, Bool-cases, arith}
use poc_hydra_auth.Http.Bodies.{
  Json, null, flag, number, text, array, object, Items, no_items, item, Members, no_members, member,
  JsonLibrary, item_count, last_item, head_items, shortened, marker, truncate_arrays,
  truncate_items, truncate_members,
}

-- No array in the value has more than seven items.
unfoldable mutual
  pub IsShort : Json → Type 0
  IsShort null = Unit
  IsShort (flag b) = Unit
  IsShort (number n) = Unit
  IsShort (text s) = Unit
  IsShort (array xs) = (item_count xs ≤ 7) × ShortItems xs
  IsShort (object ms) = ShortMembers ms

  pub ShortItems : Items → Type 0
  ShortItems no_items = Unit
  ShortItems (item x xs) = IsShort x × ShortItems xs

  pub ShortMembers : Members → Type 0
  ShortMembers no_members = Unit
  ShortMembers (member key v ms) = IsShort v × ShortMembers ms

last_count : (xs : Items) → item_count (last_item xs) ≤ 1
last_count no_items = omega arith
last_count (item x no_items) = omega arith
last_count (item x (item y ys)) = last_count (item y ys)

last-ShortItems : (xs : Items) → ShortItems xs → ShortItems (last_item xs)
unfolding IsShort
last-ShortItems no_items h = h
last-ShortItems (item x no_items) h = h
last-ShortItems (item x (item y ys)) (h, k) = last-ShortItems (item y ys) k

head_count : (n : ℕ) (xs ys : Items) → item_count (head_items n xs ys) ≤ n + item_count ys
head_count zero xs ys = omega arith
head_count (suc n) no_items ys = omega arith
head_count (suc n) (item x xs) ys = omega (arith, head_count n xs ys)

head-ShortItems :
    (n : ℕ) (xs ys : Items) → ShortItems xs → ShortItems ys → ShortItems (head_items n xs ys)
unfolding IsShort
head-ShortItems zero xs ys h k = k
head-ShortItems (suc n) no_items ys h k = k
head-ShortItems (suc n) (item x xs) ys (h, h') k = (h, head-ShortItems n xs ys h' k)

module _ (lib : JsonLibrary) where
  shortened-IsShort : (xs : Items) → ShortItems xs → IsShort (array (shortened lib xs))
  unfolding IsShort
  shortened-IsShort xs h = elim (Bool-cases (leb (item_count xs) 6)) [
    | inl e ↦ rw e (ground (arith, e), h)
    | inr e ↦
        let after = item (marker lib (item_count xs - 6)) (last_item xs) in
        rw e (
          omega (arith, head_count 5 xs after, last_count xs),
          head-ShortItems 5 xs after h ((tt, tt), last-ShortItems xs h),
        )
  ]

  mutual
    unfolding truncate_arrays IsShort

    arrays-IsShort : (v : Json) → IsShort (truncate_arrays lib v)
    arrays-IsShort null = tt
    arrays-IsShort (flag b) = tt
    arrays-IsShort (number n) = tt
    arrays-IsShort (text s) = tt
    arrays-IsShort (array xs) =
        shortened-IsShort (truncate_items lib xs) (truncate_items-ShortItems xs)
    arrays-IsShort (object ms) = truncate_members-ShortMembers ms

    truncate_items-ShortItems : (xs : Items) → ShortItems (truncate_items lib xs)
    truncate_items-ShortItems no_items = tt
    truncate_items-ShortItems (item x xs) = (arrays-IsShort x, truncate_items-ShortItems xs)

    truncate_members-ShortMembers : (ms : Members) → ShortMembers (truncate_members lib ms)
    truncate_members-ShortMembers no_members = tt
    truncate_members-ShortMembers (member key v ms) =
        (arrays-IsShort v, truncate_members-ShortMembers ms)

  -- Whatever was parsed, no array in what truncateArrays makes of it, at any depth, has more than
  -- seven items.
  pub truncate_arrays-IsShort : (v : Json) → IsShort (truncate_arrays lib v)
  truncate_arrays-IsShort v = arrays-IsShort v
