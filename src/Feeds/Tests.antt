-- ===== src/Feeds/Tests.antt =====
-- The feed engine at small lists.
use merope.Prelude.{
  length, ◌++◌, ◌/◌, ◌≡◌, ◌≢◌, refl, true, false, List, [], ◌∷◌, String, arith, All, ◌≤◌,
}
use merope.Prelude.Int.{pos}
use merope.Prelude.Text.{str_eq, str_eq_iff}
use merope.Feeds.{
  FeedItem, FanoutTask, chunks, chunk_followers, index_after, paginate, send, tasks_of, publish,
  Event, task, tick, fanout_worker,
}
use merope.Feeds.Chunks.{concat}
use merope.Feeds.Fanout.{received, addressees, published_item_reaches_followers}
use merope.Feeds.Diversity.{
  seen, split_authors, inject_diversity, IsFresh, author_ids, authors_first,
}
use merope.Feeds.Pages.{collect, pages_cover}

program : Unit {0}
unfolding seen split_authors inject_diversity chunks chunk_followers index_after paginate send
    tasks_of publish fanout_worker concat received addressees collect
program = tt

abbrev post : String → FeedItem
post id = record {
  id = id;
  author_id = "ana";
  content_type = "text";
  content = "";
  created_at = 0;
  source_type = "follow";
}

abbrev posts : List FeedItem
posts = post "a" ∷ post "b" ∷ post "c" ∷ []

paginate_test : paginate posts 2 "b" ≡ (post "c" ∷ [], "")
unfolding program
paginate_test = refl

differs : (s t : String) → str_eq s t ≡ false → s ≢ t
differs s t h e = let same = (str_eq_iff s t).1 e in absurd (cc (h, same))

pages_cover_example : collect 3 posts 2 "" ≡ posts
pages_cover_example =
    pages_cover posts 2
      (
        refl,
        (differs "a" "b" refl, (differs "a" "c" refl, tt)),
        (refl, (differs "b" "c" refl, tt), (refl, tt, tt)),
      )
      (omega arith)

abbrev followers : List String
followers = "u1" ∷ "u2" ∷ "u3" ∷ []

abbrev task_to : List String → FanoutTask
task_to to = record { author_id = "ana"; followers = to; item = post "a" }

abbrev events : List Event
events = task (task_to ("u1" ∷ "u2" ∷ [])) ∷ tick ∷ task (task_to ("u3" ∷ [])) ∷ []

published_item_reaches_followers_example :
    addressees (concat (fanout_worker 2 events [])) ≡ followers
unfolding program
published_item_reaches_followers_example =
    published_item_reaches_followers (pos 2) followers (true ∷ true ∷ []) (post "a") 2 events refl
      refl

abbrev ranked : List FeedItem
ranked = post "a" ∷ record (post "b") { author_id = "bob" } ∷ post "c" ∷ post "d" ∷ []

inject_diversity_test :
    inject_diversity (λ n. n / 4) ranked
    ≡ post "a" ∷ record (post "b") { author_id = "bob" } ∷ post "c" ∷ []
unfolding program
inject_diversity_test = refl

authors_first_example :
    (first : List FeedItem) × (rest : List FeedItem) × (inject_diversity (λ n. n / 4) ranked
      ≡ first ++ rest)
    × IsFresh [] first
    × All (λ (x : FeedItem). seen x.author_id (author_ids first) ≡ true) ranked
    × (length (inject_diversity (λ n. n / 4) ranked) ≤ length ranked)
authors_first_example = authors_first (λ n. n / 4) ranked (omega arith)
