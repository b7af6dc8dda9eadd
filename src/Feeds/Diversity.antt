-- ===== src/Feeds/Diversity.antt =====
-- `injectDiversity` of backend/internal/core/feeds/editor.go. `share` is the part of a number of items that
-- the exploration ratio, a float, gives.
use merope.Prelude.{
  ℕ, ◌+◌, ◌≤◌, ◌≡◌, refl, arith, Bool, true, false, Bool-cases, inl, inr, List, [], ◌∷◌, ◌++◌,
  String, length, take, All, length-append, length-take, leb, if◌then◌else◌,
}
use merope.Prelude.Text.{str_eq, str_eq_refl}
use merope.Feeds.{FeedItem}

-- `seenAuthors[author]`
unfoldable pub seen : String → List String → Bool
seen author [] = false
seen author (a ∷ rest) = let below = seen author rest in if str_eq a author then true else below

-- The first item of each author that has not been seen, and the others.
unfoldable pub split_authors : List String → List FeedItem → List FeedItem × List FeedItem
unfolding seen
split_authors authors [] = ([], [])
split_authors authors (x ∷ xs) =
    let old = split_authors authors xs in
    let new = split_authors (x.author_id ∷ authors) xs in
    if seen x.author_id authors then (old.0, x ∷ old.1) else (x ∷ new.0, new.1)

unfoldable pub inject_diversity : (ℕ → ℕ) → List FeedItem → List FeedItem
unfolding split_authors
inject_diversity share items =
    if leb (length items) 1
    then items
    else (let n = share (length items) in
        let count = if leb 1 n then n else 1 in
        let (first, others) = split_authors [] items in first ++ take count others)

-- Every item's author is none of these and appears once.
abbrev pub IsFresh : List String → List FeedItem → Type 0
IsFresh authors [] = Unit
IsFresh authors (x ∷ xs) = (seen x.author_id authors ≡ false) × IsFresh (x.author_id ∷ authors) xs

abbrev pub author_ids : List FeedItem → List String
author_ids [] = []
author_ids (x ∷ xs) = x.author_id ∷ author_ids xs

first-IsFresh :
    (authors : List String) (items : List FeedItem)
    → IsFresh authors (split_authors authors items).0
unfolding split_authors
first-IsFresh authors [] = tt
first-IsFresh authors (x ∷ xs) = elim (Bool-cases (seen x.author_id authors)) [
  | inl old ↦ rw old (first-IsFresh authors xs)
  | inr new ↦ rw new (new, first-IsFresh (x.author_id ∷ authors) xs)
]

length-split :
    (authors : List String) (items : List FeedItem)
    → length (split_authors authors items).0 + length (split_authors authors items).1 ≡ length items
unfolding split_authors
length-split authors [] = refl
length-split authors (x ∷ xs) = elim (Bool-cases (seen x.author_id authors)) [
  | inl old ↦ rw old (omega (arith, length-split authors xs))
  | inr new ↦ rw new (omega (arith, length-split (x.author_id ∷ authors) xs))
]

-- An author is seen before or has an item in the list.
IsMet : List String → List FeedItem → String → Type 0
IsMet authors first author =
    (if seen author authors then true else seen author (author_ids first)) ≡ true

IsMet-skip :
    (authors : List String) (first : List FeedItem) (x : FeedItem) (author : String)
    → IsMet (x.author_id ∷ authors) first author
    → IsMet authors (x ∷ first) author
unfolding seen IsMet
IsMet-skip authors first x author h = ground arith

IsMet-seen :
    (authors : List String) (first : List FeedItem) (author : String)
    → seen author authors ≡ true
    → IsMet authors first author
unfolding IsMet
IsMet-seen authors first author h = rw h refl

IsMet-head :
    (authors : List String) (first : List FeedItem) (x : FeedItem)
    → seen x.author_id authors ≡ false
    → IsMet authors (x ∷ first) x.author_id
unfolding IsMet seen
IsMet-head authors first x h = rw (h, str_eq_refl x.author_id) refl

All-map :
    {A : Type 0} (P Q : A → Type 0) (xs : List A) → ((x : A) → P x → Q x) → All P xs → All Q xs
All-map P Q [] f h = tt
All-map P Q (x ∷ xs) f h = (f x h.0, All-map P Q xs f h.1)

-- Every author of the items is met.
Meets : List String → List FeedItem → List FeedItem → Type 0
Meets authors first items = All (λ (x : FeedItem). IsMet authors first x.author_id) items

first_old :
    (authors : List String) (x : FeedItem) (xs : List FeedItem)
    → seen x.author_id authors ≡ true
    → (split_authors authors (x ∷ xs)).0 ≡ (split_authors authors xs).0
unfolding split_authors
first_old authors x xs h = rw h refl

first_new :
    (authors : List String) (x : FeedItem) (xs : List FeedItem)
    → seen x.author_id authors ≡ false
    → (split_authors authors (x ∷ xs)).0 ≡ x ∷ (split_authors (x.author_id ∷ authors) xs).0
unfolding split_authors
first_new authors x xs h = rw h refl

Meets-old :
    (authors : List String) (first : List FeedItem) (x : FeedItem) (xs : List FeedItem)
    → seen x.author_id authors ≡ true
    → Meets authors first xs
    → Meets authors first (x ∷ xs)
unfolding Meets
Meets-old authors first x xs old h = (IsMet-seen authors first x.author_id old, h)

Meets-new :
    (authors : List String) (first : List FeedItem) (x : FeedItem) (xs : List FeedItem)
    → seen x.author_id authors ≡ false
    → Meets (x.author_id ∷ authors) first xs
    → Meets authors (x ∷ first) (x ∷ xs)
unfolding Meets
Meets-new authors first x xs new h = (
  IsMet-head authors first x new,
  All-map (λ (y : FeedItem). IsMet (x.author_id ∷ authors) first y.author_id)
      (λ (y : FeedItem). IsMet authors (x ∷ first) y.author_id) xs
      (λ y k. IsMet-skip authors first x y.author_id k) h,
)

Meets-nil : (authors : List String) (first : List FeedItem) → Meets authors first []
unfolding Meets
Meets-nil authors first = tt

first-Meets :
    (authors : List String) (items : List FeedItem)
    → Meets authors (split_authors authors items).0 items
first-Meets authors [] = Meets-nil authors _
first-Meets authors (x ∷ xs) = elim (Bool-cases (seen x.author_id authors)) [
  | inl old ↦
      rw (first_old authors x xs old)
        (Meets-old authors (split_authors authors xs).0 x xs old (first-Meets authors xs))
  | inr new ↦ rw (first_new authors x xs new) (
      Meets-new authors (split_authors (x.author_id ∷ authors) xs).0 x xs new
        (first-Meets (x.author_id ∷ authors) xs))
]

-- Of two items or more, whatever the share, a feed is made that starts with items of different authors,
-- among them the author of every item that was ranked, and that is no longer than the ranked list.
pub authors_first :
    (share : ℕ → ℕ) (items : List FeedItem)
    → 2 ≤ length items
    → (first : List FeedItem) × (rest : List FeedItem) × (inject_diversity share items
        ≡ first ++ rest)
      × IsFresh [] first
      × All (λ (x : FeedItem). seen x.author_id (author_ids first) ≡ true) items
      × (length (inject_diversity share items) ≤ length items)
unfolding inject_diversity IsMet Meets
authors_first share items h =
    let long : leb (length items) 1 ≡ false = ground arith in
    let n = share (length items) in
    let count = if leb 1 n then n else 1 in
    let (first, others) = split_authors [] items in
    rw long (
      first,
      take count others,
      refl,
      first-IsFresh [] items,
      unfold seen in first-Meets [] items,
      omega (
        arith,
        length-append first (take count others),
        length-take count others,
        length-split [] items,
      ),
    )
