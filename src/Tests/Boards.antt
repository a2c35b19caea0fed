-- ===== src/Tests/Boards.antt =====
-- The properties of announcements at a concrete board.
use sub2api5hlimit.Base.{
  ℕ, Bool, ◌≤◌, ◌≡◌, refl, Bool, ◌&&◌, ◌||◌, ◌==◌, none, List, [], ◌∷◌, codes, count_where, arith,
}
use sub2api5hlimit.Store.Tx.{ok}
use sub2api5hlimit.Store.Announcements.{
  Announcement, Dismissal, Board, dismissed, with_dismissal, dismiss_announcement, announcements,
}
use sub2api5hlimit.Store.Announcements.Views.{
  AreNewestFirst, announcements_lem, dismiss_announcement_lem,
}
use sub2api5hlimit.Store.Announcements.Posted.{Call, IsPosted, run, run-IsPosted}

abbrev first : Announcement
first = record {
  id = 1;
  title = codes "One";
  body = codes "Text";
  published_at = 10;
  created_by_user_id = none;
  created_at = 10;
  updated_at = 10;
}

abbrev second : Announcement
second = record first { id = 2; published_at = 20 }

abbrev board : Board
board = record {
  announcements = first ∷ second ∷ [];
  dismissals = [];
  user_ids = 2 ∷ 3 ∷ [];
  last_id = 2;
}

announcements_lem_example :
    AreNewestFirst (announcements (first ∷ second ∷ []))
    × ((p : Announcement → Bool)
        → count_where p (announcements (first ∷ second ∷ [])) ≡ count_where p (first ∷ second ∷ []))
announcements_lem_example = announcements_lem (first ∷ second ∷ [])

dismisses : dismiss_announcement 1 2 30 board ≡ (with_dismissal 1 2 30 board, ok tt)
unfolding dismiss_announcement
dismisses = refl

dismiss_announcement_lem_example :
    let after = with_dismissal 1 2 30 board in
    ((a v : ℕ) → dismissed a v after ≡ (dismissed a v board || (1 == a && 2 == v)))
    × (after.announcements ≡ board.announcements)
    × (after.user_ids ≡ board.user_ids)
    × ((p : Dismissal → Bool) → count_where p board.dismissals ≤ count_where p after.dismissals)
dismiss_announcement_lem_example =
    dismiss_announcement_lem 1 2 30 board (with_dismissal 1 2 30 board) dismisses

board-IsPosted : IsPosted board
board-IsPosted = record {
  sized = ((refl, refl), ((refl, refl), tt));
  below = (omega arith, (omega arith, tt));
  unique = λ id. ground arith;
  one_dismissal = λ id user_id. omega arith;
  refers = tt;
}

abbrev calls : List Call
calls =
    Call.dismiss 1 2 30
    ∷ Call.create (codes " New ") (codes "Body\n") 2 31
    ∷ Call.update 2 (codes "Two") (codes "More") 32
    ∷ Call.delete 1
    ∷ []

run-IsPosted_example : IsPosted (run board calls)
run-IsPosted_example = run-IsPosted board calls board-IsPosted
