-- ===== src/Feeds/Pages.antt =====
-- Walking through the pages of `paginate` of backend/internal/core/feeds/editor.go.
use merope.Prelude.{
  ℕ, zero, suc, ◌+◌, ◌-◌, ◌≤◌, ◌<◌, ◌≡◌, ◌≢◌, refl, ap, arith, tests, true, false, Bool-cases, inl,
  inr, some, List, [], ◌∷◌, ◌++◌, String, length, take, drop, All, take-append-drop, length-drop,
  append_nil, leb, ltb, if◌then◌else◌,
}
use merope.Prelude.Text.{str_eq, str_eq_iff, str_eq_refl, is_empty}
use merope.Feeds.{FeedItem, index_after, or_zero, id_at, paginate}

-- The items of the pages that a reader gets who asks for each next page, at most `fuel` pages.
unfoldable pub collect : ℕ → List FeedItem → ℕ → String → List FeedItem
collect zero items limit cursor = []
collect (suc fuel) items limit cursor =
    let (page, next) = paginate items limit cursor in
    let rest = collect fuel items limit next in page ++ (if is_empty next then [] else rest)

-- Every item has an id of its own.
abbrev pub IsKeyed : List FeedItem → Type 0
IsKeyed [] = Unit
IsKeyed (x ∷ xs) = (is_empty x.id ≡ false) × All (λ (y : FeedItem). x.id ≢ y.id) xs × IsKeyed xs

id_at-differs :
    (s : String) (i : ℕ) (xs : List FeedItem)
    → All (λ (y : FeedItem). s ≢ y.id) xs
    → i < length xs
    → s ≢ id_at i xs
id_at-differs s i [] h p = absurd (omega arith)
id_at-differs s zero (x ∷ xs) h p = h.0
id_at-differs s (suc i) (x ∷ xs) h p = id_at-differs s i xs h.1 (omega arith)

id_at-filled :
    (i : ℕ) (xs : List FeedItem) → IsKeyed xs → i < length xs → is_empty (id_at i xs) ≡ false
id_at-filled i [] h p = absurd (omega arith)
id_at-filled zero (x ∷ xs) h p = h.0
id_at-filled (suc i) (x ∷ xs) h p = id_at-filled i xs h.2 (omega arith)

index_after-id_at :
    (i : ℕ) (xs : List FeedItem)
    → IsKeyed xs
    → i < length xs
    → index_after (id_at i xs) xs ≡ some (suc i)
unfolding index_after
index_after-id_at i [] h p = absurd (omega arith)
index_after-id_at zero (x ∷ xs) h p = rw (str_eq_refl x.id) refl
index_after-id_at (suc i) (x ∷ xs) h p = elim (Bool-cases (str_eq x.id (id_at i xs))) [
  | inl same ↦
      absurd (id_at-differs x.id i xs h.1 (omega arith) ((str_eq_iff x.id (id_at i xs)).0 same))
  | inr other ↦ rw (other, index_after-id_at i xs h.2 (omega arith)) refl
]

drop-drop : {A : Type 0} (k m n : ℕ) (xs : List A) → k ≡ m + n → drop k xs ≡ drop n (drop m xs)
drop-drop k zero n xs h = let same : k ≡ n = omega arith in rw same refl
drop-drop zero (suc m) n xs h = absurd (omega arith)
drop-drop (suc k) (suc m) zero [] h = refl
drop-drop (suc k) (suc m) (suc n) [] h = refl
drop-drop (suc k) (suc m) n (x ∷ xs) h = drop-drop k m n xs (omega arith)

drop_all : {A : Type 0} (n : ℕ) (xs : List A) → length xs ≤ n → [] ≡ drop n xs
drop_all zero [] h = refl
drop_all zero (x ∷ xs) h = absurd (omega arith)
drop_all (suc n) [] h = refl
drop_all (suc n) (x ∷ xs) h = drop_all n xs (omega arith)

take_all : {A : Type 0} (n : ℕ) (xs : List A) → length xs ≤ n → take n xs ++ [] ≡ xs
take_all zero [] h = refl
take_all zero (x ∷ xs) h = absurd (omega arith)
take_all (suc n) [] h = refl
take_all (suc n) (x ∷ xs) h = ap (◌∷◌ x) (take_all n xs (omega arith))

abbrev start_of : String → List FeedItem → ℕ
start_of cursor items = if is_empty cursor then 0 else or_zero (index_after cursor items)

page_middle :
    (items : List FeedItem) (limit : ℕ) (cursor : String) (s : ℕ)
    → limit < length items
    → start_of cursor items ≡ s
    → s + limit < length items
    → paginate items limit cursor ≡ (take limit (drop s items), id_at (s + limit - 1) items)
unfolding paginate
page_middle items limit cursor s long h inside =
    let long' : leb (length items) limit ≡ false = ground arith in
    let within : ltb (length items) (s + limit) ≡ false = ground arith in
    let more : ltb (s + limit) (length items) ≡ true = ground arith in
    let size : s + limit - s ≡ limit = omega arith in rw (long', h, within, more, size) refl

page_last :
    (items : List FeedItem) (limit : ℕ) (cursor : String) (s : ℕ)
    → limit < length items
    → start_of cursor items ≡ s
    → length items ≤ s + limit
    → paginate items limit cursor ≡ (take (length items - s) (drop s items), "")
unfolding paginate
page_last items limit cursor s long h outside =
    let long' : leb (length items) limit ≡ false = ground arith in
    elim (Bool-cases (ltb (length items) (s + limit))) [
      | inl beyond ↦
          let same : ltb (length items) (length items) ≡ false = ground arith in
          rw (long', h, beyond, same) refl
      | inr at_end ↦
          let total : s + limit ≡ length items = omega (tests, at_end) in
          let same : ltb (length items) (length items) ≡ false = ground arith in
          rw (long', h, at_end, total, same) refl
    ]

collect_from :
    (fuel : ℕ) (items : List FeedItem) (limit : ℕ) (cursor : String) (s : ℕ)
    → IsKeyed items
    → 1 ≤ limit
    → limit < length items
    → start_of cursor items ≡ s
    → length items - s ≤ fuel
    → collect fuel items limit cursor ≡ drop s items
unfolding collect
collect_from zero items limit cursor s keyed p long h enough = drop_all s items (omega arith)
collect_from (suc fuel) items limit cursor s keyed p long h enough =
    elim (Bool-cases (ltb (s + limit) (length items))) [
      | inl inside ↦
          let inside' : s + limit < length items = omega (tests, inside) in
          let filled : is_empty (id_at (s + limit - 1) items) ≡ false =
            id_at-filled (s + limit - 1) items keyed (omega arith) in
          let next : start_of (id_at (s + limit - 1) items) items ≡ s + limit =
            rw (filled, index_after-id_at (s + limit - 1) items keyed (omega arith))
              (omega arith) in
          let tail =
            collect_from fuel items limit (id_at (s + limit - 1) items) (s + limit) keyed p long
              next (omega arith) in
          rw
            (
              page_middle items limit cursor s long h inside',
              filled,
              tail,
              drop-drop (s + limit) s limit items refl,
            )
            (take-append-drop limit (drop s items))
      | inr outside ↦
          rw (page_last items limit cursor s long h (omega (tests, outside)))
            (take_all (length items - s) (drop s items) (omega (arith, length-drop s items)))
    ]

short_pages :
    (items : List FeedItem) (limit : ℕ)
    → leb (length items) limit ≡ true
    → collect (length items) items limit "" ≡ items
unfolding collect paginate
short_pages [] limit short = refl
short_pages (x ∷ xs) limit short = rw short (append_nil (x ∷ xs))

-- A reader who starts with the empty cursor and asks for each next page gets every item once and in
-- order, whatever the positive limit, if every item has an id of its own; as many requests as there are
-- items are enough.
pub pages_cover :
    (items : List FeedItem) (limit : ℕ)
    → IsKeyed items
    → 1 ≤ limit
    → collect (length items) items limit "" ≡ items
pages_cover items limit keyed p = elim (Bool-cases (leb (length items) limit)) [
  | inl short ↦ short_pages items limit short
  | inr long ↦
      collect_from (length items) items limit "" 0 keyed p (omega (tests, long)) refl (omega arith)
]
