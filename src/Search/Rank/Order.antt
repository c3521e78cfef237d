-- ===== src/Search/Rank/Order.antt =====
-- The two callbacks of the ranking list are weak orders.
use opmes.Base.{arith, ◌<◌, ◌≡◌, ◌⊎◌, true, false}
use opmes.Base.Int.{lt_ℤ, eq_ℤ}
use opmes.Search.Rank.{RankItem, less_than_stage0, less_than_stage1}
use opmes.Search.MinHeap.Order.{IsWeakOrder}

pub stage0-IsWeakOrder : IsWeakOrder less_than_stage0
unfolding less_than_stage0
stage0-IsWeakOrder = record { asym = λ x y h. ground arith; trans = λ x y z h k. ground arith }

pub stage1-IsWeakOrder : IsWeakOrder less_than_stage1
unfolding less_than_stage1
stage1-IsWeakOrder = record { asym = λ x y h. ground arith; trans = λ x y z h k. ground arith }

-- The order of the results: the smaller rot_depth first, then the higher score, then the fewer
-- branch words.
abbrev pub ComesFirst : RankItem → RankItem → Type 0
ComesFirst x y =
    (x.rot_depth < y.rot_depth)
    ⊎ ((x.rot_depth ≡ y.rot_depth)
        × ((lt_ℤ y.score x.score ≡ true)
            ⊎ ((eq_ℤ x.score y.score ≡ true) × (lt_ℤ y.frml_rec.n_brw x.frml_rec.n_brw ≡ false))))

pub stage1-ComesFirst : (x y : RankItem) → less_than_stage1 x y ≡ false → ComesFirst x y
unfolding less_than_stage1
stage1-ComesFirst x y e = ground (arith, e)
