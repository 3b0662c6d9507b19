-- ===== src/Examples/Clients.antt =====
-- The verifying client, with a checksum that adds up the bytes.
use live_update.Base.{ℕ, ◌+◌, ◌-◌, ◌%◌, ◌^◌, ◌≡◌, refl, ap, true, List, [], ◌∷◌, ◌++◌, append-nil}
use live_update.Machine.{ok}
use live_update.Verify.{Crc32, end_of_stream, block, blocks, complement, final_crc, Network, main}
use live_update.Verify.Checks.{joined, reads_of, Prefix, main-passes, main-Prefix}

abbrev sum_from : ℕ → List ℕ → ℕ
sum_from crc [] = crc
sum_from crc (b ∷ bs) = sum_from ((crc + b) % 2 ^ 32) bs

sum_from-append :
    (crc : ℕ) (xs ys : List ℕ) → sum_from crc (xs ++ ys) ≡ sum_from (sum_from crc xs) ys
sum_from-append crc [] ys = refl
sum_from-append crc (x ∷ xs) ys = sum_from-append ((crc + x) % 2 ^ 32) xs ys

abbrev sums : Crc32
sums = record {
  begin = 0xFFFFFFFF;
  crc32 = sum_from;
  value = λ crc. 0xFFFFFFFF - crc;
  begins = refl;
  crc32-nil = λ crc. refl;
  crc32-append = sum_from-append;
  value_complement = λ crc. refl;
}

-- The first block in a piece of its own, and the others in another.
abbrev pieces : List (List ℕ)
pieces = block ∷ blocks 999 ∷ []

pieces-joined : joined pieces ≡ blocks 1000
unfolding blocks
pieces-joined = ap (λ bs. block ++ bs) (append-nil (blocks 999))

abbrev network : Network
network = record { connect = λ address port. (true, reads_of pieces ++ end_of_stream ∷ []) }

main-passes_example : main sums network ≡ ok tt
main-passes_example = main-passes sums network pieces (end_of_stream ∷ []) refl pieces-joined

main-Prefix_example :
    (x : ℕ) × Prefix sums 0xFFFFFFFF (reads_of pieces ++ end_of_stream ∷ []) x
    × (complement x ≡ final_crc sums)
main-Prefix_example =
    main-Prefix sums network
      (main-passes sums network pieces (end_of_stream ∷ []) refl pieces-joined)
