-- ===== src/Buffer/Guards/Tests.antt =====
-- Runs of guards on the pool of two frames of Buffer/Pool/Tests.antt.
use goods_db.Prelude.{◌≡◌, refl, true, [], ◌∷◌, arith}
use goods_db.Buffer.LruK.Policy.{lru_k}
use goods_db.Buffer.Pool.{Pool, fetch_page}
use goods_db.Buffer.Pool.Valid.{IsValid}
use goods_db.Buffer.Pool.Tests.{D, empty, empty-IsValid, program}
use goods_db.Buffer.Guards.{drop}
use goods_db.Buffer.Guards.Pins.{pins}
use goods_db.Buffer.Guards.Balance.{start, fetched, failed, dropped, guard_of, pins_balance}

-- Pages 1 and 2 are held, page 3 finds no frame.
abbrev one : Pool lru_k D
one = (fetch_page lru_k D empty 65537).0

abbrev two : Pool lru_k D
two = (fetch_page lru_k D one 65538).0

abbrev refused : Pool lru_k D
refused = (fetch_page lru_k D two 65539).0

-- The guard of page 1 is dropped.
abbrev released : Pool lru_k D
released = (drop lru_k D refused (guard_of true 0)).0

pins_balance_example :
    IsValid {R = lru_k} {D = D} released × (pins {R = lru_k} {D = D} released 0 ≡ 0)
unfolding program drop
pins_balance_example =
    pins_balance {R = lru_k} {D = D} {s = empty} {t = released} {l = 1 ∷ []} 0 empty-IsValid
      (λ f. refl)
      (dropped true 0 (1 ∷ []) [] (
        failed 65539 (fetched 65538 1 (fetched 65537 0 start (omega arith) refl) (omega arith) refl)
          (omega arith) refl))
