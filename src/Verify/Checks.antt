-- ===== src/Verify/Checks.antt =====
-- When the verifying client passes its assertion.
use live_update.Base.{
  ℕ, zero, suc, ◌*◌, ◌<◌, ◌≡◌, refl, sym, ◌∙◌, ap, List, [], ◌∷◌, ◌++◌, append-nil, arith, ◌==◌,
  Bool-cases, inl, inr, length, length-append, length-replicate, eq→==,
}
use live_update.Machine.{Run, ok, throw, aborted, starved, ◌>>=◌}
use live_update.Verify.{
  Crc32, Read, some_bytes, end_of_stream, failed, complement, block, blocks, crc_of_blocks,
  final_crc, read_loop, check_crc, verify, Network, server_address, port, main,
}

-- The bytes of some reads, and the reads of some pieces.
abbrev pub joined : List (List ℕ) → List ℕ
joined [] = []
joined (bs ∷ bss) = bs ++ joined bss

abbrev pub reads_of : List (List ℕ) → List Read
reads_of [] = []
reads_of (bs ∷ bss) = some_bytes bs ∷ reads_of bss

length-blocks : (n : ℕ) → length (blocks n) ≡ n * 4096
unfolding blocks
length-blocks zero = omega arith
length-blocks (suc n) =
    omega
      (arith, length-append block (blocks n), length-replicate {A = ℕ} 4096 b'A', length-blocks n)

module _ (c : Crc32) where
  crc_of_blocks_lem : (n x : ℕ) → crc_of_blocks c n x ≡ c.crc32 x (blocks n)
  unfolding crc_of_blocks blocks
  crc_of_blocks_lem zero x = sym (c.crc32-nil x)
  crc_of_blocks_lem (suc n) x =
      crc_of_blocks_lem n (c.crc32 x block) ∙ sym (c.crc32-append x block (blocks n))

  final_crc_lem : complement (c.crc32 0xFFFFFFFF (blocks 1000)) ≡ final_crc c
  unfolding final_crc
  final_crc_lem = rw c.begins (
      sym (
        c.value_complement (crc_of_blocks c 1000 0xFFFFFFFF)
        ∙ ap complement (crc_of_blocks_lem 1000 0xFFFFFFFF)))

  -- The loop ends at the last of the pieces at the latest, with the checksum that is looked for.
  read_loop-joined :
      (bss : List (List ℕ)) (rest : List Read) (crc : ℕ)
      → complement (c.crc32 crc (joined bss)) ≡ final_crc c
      → 0 < length bss
      → (x : ℕ) × (read_loop c crc (reads_of bss ++ rest) ≡ ok x) × (complement x ≡ final_crc c)
  unfolding read_loop
  read_loop-joined [] rest crc e h = absurd (omega arith)
  read_loop-joined (bs ∷ []) rest crc e h =
      let last : complement (c.crc32 crc bs) ≡ final_crc c = rw (append-nil bs) at e in
      (c.crc32 crc bs, rw (eq→== (complement (c.crc32 crc bs)) (final_crc c) last) refl, last)
  read_loop-joined (bs ∷ bs' ∷ bss) rest crc e h =
      elim (Bool-cases (complement (c.crc32 crc bs) == final_crc c)) [
        | inl hit ↦ (c.crc32 crc bs, rw hit refl, ground arith)
        | inr miss ↦
            let later : complement (c.crc32 (c.crc32 crc bs) (joined (bs' ∷ bss))) ≡ final_crc c =
              ap complement (sym (c.crc32-append crc bs (joined (bs' ∷ bss)))) ∙ e in
            let (x, ends, good) =
              read_loop-joined (bs' ∷ bss) rest (c.crc32 crc bs) later (omega arith) in
            (x, rw miss ends, good)
      ]

  verify-passes :
      (bss : List (List ℕ)) (rest : List Read)
      → joined bss ≡ blocks 1000
      → verify c (reads_of bss ++ rest) ≡ ok tt
  unfolding verify check_crc
  verify-passes [] rest e = absurd (omega (arith, length-blocks 1000, ap length e))
  verify-passes (bs ∷ bss) rest e =
      let whole : complement (c.crc32 0xFFFFFFFF (joined (bs ∷ bss))) ≡ final_crc c =
        rw e final_crc_lem in
      let (x, ends, good) = read_loop-joined (bs ∷ bss) rest 0xFFFFFFFF whole (omega arith) in
      rw (ends, eq→== (complement x) (final_crc c) good) refl

  -- What the loop has ended with is the checksum of a first part of what it was given.
  pub record Prefix (crc : ℕ) (reads : List Read) (x : ℕ) : Type 0 where
    pub pieces : List (List ℕ)
    pub rest : List Read
    pub split : reads ≡ reads_of pieces ++ rest
    pub sum : x ≡ c.crc32 crc (joined pieces)

  read_loop-Prefix :
      (reads : List Read) (crc x : ℕ) → read_loop c crc reads ≡ ok x → Prefix crc reads x
  unfolding read_loop
  read_loop-Prefix [] crc x e = absurd cc
  read_loop-Prefix (end_of_stream ∷ reads) crc x e = record {
    pieces = [];
    rest = end_of_stream ∷ reads;
    split = refl;
    sum = (let same : crc ≡ x = cc in sym same ∙ sym (c.crc32-nil crc));
  }
  read_loop-Prefix (failed ∷ reads) crc x e = absurd cc
  read_loop-Prefix (some_bytes bs ∷ reads) crc x e =
      elim (Bool-cases (complement (c.crc32 crc bs) == final_crc c)) [
        | inl hit ↦
            let done : ok (c.crc32 crc bs) ≡ ok x = rw hit at e in
            let same : c.crc32 crc bs ≡ x = cc in
            record {
              pieces = bs ∷ [];
              rest = reads;
              split = refl;
              sum = rw (append-nil bs) (sym same);
            }
        | inr miss ↦
            let p = read_loop-Prefix reads (c.crc32 crc bs) x (rw miss at e) in
            record {
              pieces = bs ∷ p.pieces;
              rest = p.rest;
              split = ap (λ rs. some_bytes bs ∷ rs) p.split;
              sum = p.sum ∙ sym (c.crc32-append crc bs (joined p.pieces));
            }
      ]

  verify-Prefix :
      (reads : List Read)
      → verify c reads ≡ ok tt
      → (x : ℕ) × Prefix 0xFFFFFFFF reads x × (complement x ≡ final_crc c)
  unfolding verify check_crc
  verify-Prefix reads e = ended (read_loop c 0xFFFFFFFF reads) refl e
    where
      ended :
          (r : Run ℕ)
          → read_loop c 0xFFFFFFFF reads ≡ r
          → (r >>= check_crc c) ≡ ok tt
          → (x : ℕ) × Prefix 0xFFFFFFFF reads x × (complement x ≡ final_crc c)
      ended (ok x) e h = (x, read_loop-Prefix reads 0xFFFFFFFF x e, ground arith)
      ended (throw z) e h = absurd cc
      ended aborted e h = absurd cc
      ended starved e h = absurd cc

  -- The verifying client passes its assertion where the first pieces that it reads from the port of the
  -- service join to the thousand blocks, however they are cut, and whatever comes behind them.
  pub main-passes :
      (network : Network) (bss : List (List ℕ)) (rest : List Read)
      → (network.connect server_address port).1 ≡ reads_of bss ++ rest
      → joined bss ≡ blocks 1000
      → main c network ≡ ok tt
  unfolding main
  main-passes network bss rest e joins = ap (verify c) e ∙ verify-passes bss rest joins

  -- Where the verifying client passes its assertion, the checksum of a first part of the stream has the
  -- value that it looks for.
  pub main-Prefix :
      (network : Network)
      → main c network ≡ ok tt
      → (x : ℕ) × Prefix 0xFFFFFFFF (network.connect server_address port).1 x
        × (complement x ≡ final_crc c)
  unfolding main
  main-Prefix network e = verify-Prefix (network.connect server_address port).1 e
