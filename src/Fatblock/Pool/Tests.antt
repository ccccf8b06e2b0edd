-- ===== src/Fatblock/Pool/Tests.antt =====
-- The pool of open files (fatblock/fdpool.c) at concrete inputs.
use android_platform_system.Prelude.{ℕ, ◌≡◌, refl, List, [], ◌∷◌, none, some, arith}
use android_platform_system.Fatblock.Pool.{FdPool, fdpool_open, fdpool_close, poke}
use android_platform_system.Fatblock.Pool.Recent.{IsPool, recent, Opens}
use android_platform_system.Fatblock.Pool.Open.{fdpool_open_lem}
use android_platform_system.Fatblock.Pool.Close.{fdpool_open-fdpool_close}

-- Four open files: the nodes 5, 4, 3 and 2 have the descriptors 15, 14, 13 and 12.
abbrev full_pool : FdPool
full_pool = record {
  next = poke 1 5 (poke 5 4 (poke 4 3 (poke 3 2 (poke 2 1 (λ i. 0)))));
  prev = poke 1 2 (poke 2 3 (poke 3 4 (poke 4 5 (poke 5 1 (λ i. 0)))));
  fd = poke 5 (some 15) (poke 4 (some 14) (poke 3 (some 13) (poke 2 (some 12) (λ i. none))));
  fdpool_count = 4;
  closed = [];
}

abbrev four_nodes : List ℕ
four_nodes = 5 ∷ 4 ∷ 3 ∷ 2 ∷ []

full_pool-IsPool : IsPool full_pool four_nodes
full_pool-IsPool = record {
  ring = record {
    forward = (refl, (refl, (refl, (refl, refl))));
    backward = (refl, (refl, (refl, (refl, refl))));
    distinct = (refl, (refl, (refl, (refl, (refl, tt)))));
    no_null = refl;
    counted = refl;
  };
  opened = λ i a. ground arith;
  bounded = omega arith;
}

-- A fifth file: node 2 makes room.
fdpool_open_lem_example :
    (q : FdPool) × (fdpool_open 6 (some 16) full_pool ≡ some (some 16, q))
    × Opens full_pool 6 16 four_nodes q
fdpool_open_lem_example =
    fdpool_open_lem full_pool 6 four_nodes (some 16) full_pool-IsPool refl refl

fifth_file : recent 6 four_nodes ≡ 6 ∷ 5 ∷ 4 ∷ 3 ∷ []
fifth_file = refl

again : recent 3 four_nodes ≡ 3 ∷ 5 ∷ 4 ∷ 2 ∷ []
again = refl

fdpool_open-fdpool_close_example : fdpool_open 6 (some 16) (fdpool_close 2 full_pool) ≡ none
fdpool_open-fdpool_close_example =
    fdpool_open-fdpool_close full_pool 6 16 four_nodes full_pool-IsPool refl refl refl
