-- ===== src/Web/Tests.antt =====
-- Runs of the web front end, and its theorem at a concrete input.
use opmes.Base.{ℕ, ◌≡◌, refl, some, none, List, [], ◌∷◌, arith}
use opmes.Base.Int.{pos}
use opmes.Base.Exec.{ok, fault}
use opmes.Search.Rank.{Rank, FrmlRec, item_pointer}
use opmes.Search.Rank.Sort.{results}
use opmes.Web.{cat, prev_cat, page_no, prev_form, next_form, subst_loop, query_subst, navigation}
use opmes.Web.Browse.{browse, shown, browse_lem}

-- The first two bytes, "q=" of the form, become blanks; of a shorter text they are not there.
subst_run : query_subst (b'q' ∷ b'=' ∷ b'x' ∷ 10 ∷ []) ≡ ok (32 ∷ 32 ∷ b'x' ∷ 32 ∷ [])
unfolding query_subst subst_loop
subst_run = refl

short_run : query_subst (b'q' ∷ []) ≡ fault
unfolding query_subst
short_run = refl

-- The last of three pages.
links_run : navigation [] 2 3 ≡ cat prev_cat ∷ page_no 3 3 ∷ prev_form [] 1 ∷ next_form [] 3 ∷ []
unfolding navigation
links_run = refl

abbrev record_at : List ℕ → FrmlRec
record_at f = record { n_brw = pos 1; frml_str = some f; url_str = some f }

-- Two results, and one without its strings.
abbrev found : Rank
found = record {
  heap = record {
    array =
        record item_pointer.null { id = 1; frml_rec = record_at (b'x' ∷ []) }
        ∷ record item_pointer.null { id = 2 }
        ∷ record item_pointer.null { id = 3; frml_rec = record_at (b'y' ∷ []) }
        ∷ [];
    size = 3;
    end = 3;
    ltf = none;
  };
  keep = [];
  n_items = 3;
  n_capacity = 3;
}

browse_example : browse 4 found 2 [] 0 ≡ ok (shown (results found))
browse_example = browse_lem found 2 [] (omega arith) (omega arith) (omega arith) (omega arith)
