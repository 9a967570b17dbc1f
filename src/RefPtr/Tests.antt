-- ===== src/RefPtr/Tests.antt =====
-- The theorems about counting pointers at a concrete store.
use tythread.Base.{◌≡◌, refl, arith, ◌==◌, if◌then◌else◌, true, false, null, ltb}
use tythread.RefPtr.{Store, assign_copy, assign_move, drop}
use tythread.RefPtr.Make.{make_ref, make_ref-IsCounted}
use tythread.RefPtr.Count.{IsCounted, assign-IsCounted, drop-IsCounted}
use tythread.RefPtr.Owners.{owners}

-- The pointers 0 and 1 point to the object 5, pointer 2 to none.
abbrev two_owners : Store
two_owners = record {
  handle = λ h. if ltb h 2 then 5 else null;
  counter = λ p. if p == 5 then 2 else 0;
  alive = λ p. p == 5;
}

two_owners-IsCounted : IsCounted 3 two_owners
unfolding owners
two_owners-IsCounted = record { counts = λ p pos. ground arith; lives = λ p pos some. ground arith }

assign-IsCounted_example :
    IsCounted 3 (assign_copy 0 1 two_owners) × IsCounted 3 (assign_move 0 1 two_owners)
assign-IsCounted_example =
    assign-IsCounted 3 two_owners two_owners-IsCounted (omega arith) 0 1 (omega arith) (omega arith)

drop-IsCounted_example :
    IsCounted 3 (drop 0 two_owners)
    × ((drop 0 two_owners).alive 5
        ≡ (if owners 3 two_owners.handle 5 == 1 then false else two_owners.alive 5))
drop-IsCounted_example =
    drop-IsCounted 3 two_owners two_owners-IsCounted (omega arith) 0 1 (omega arith) (omega arith)
      (omega arith)

-- Object 9 is made for pointer 2 of four, by way of pointer 3.
two_owners-four : IsCounted 4 two_owners
unfolding owners
two_owners-four = record { counts = λ p pos. ground arith; lives = λ p pos some. ground arith }

nine_unused : owners 4 two_owners.handle 9 ≡ 0
unfolding owners
nine_unused = refl

make_ref-IsCounted_example :
    IsCounted 4 (make_ref 2 3 9 two_owners)
    × ((make_ref 2 3 9 two_owners).handle 2 ≡ 9)
    × ((make_ref 2 3 9 two_owners).counter 9 ≡ 1)
    × ((make_ref 2 3 9 two_owners).alive 9 ≡ true)
make_ref-IsCounted_example =
    make_ref-IsCounted 4 two_owners 2 3 9 two_owners-four (omega arith) (omega arith) (omega arith)
      (λ e. omega arith) refl refl (omega arith) nine_unused
