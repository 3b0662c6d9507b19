-- ===== src/Verify.antt =====
-- verify.cpp: a client that reads from the test service's terminal until the checksum of what it has read is
-- that of a thousand blocks of the letter A.
pub mod Checks
use live_update.Base.{
  ℕ, zero, suc, ◌-◌, ◌*◌, ◌<◌, ◌≡◌, refl, sym, ◌∙◌, ap, List, [], ◌∷◌, ◌++◌, append-nil, arith,
  ◌==◌, if◌then◌else◌, Bool, Bool-cases, inl, inr, length, length-append, replicate,
  length-replicate, eq→==,
}
use live_update.Machine.{Run, ok, throw, aborted, starved, ◌>>=◌}

-- The checksum of util/crc32.hpp: CRC32_BEGIN(), crc32(crc, buf, len) and CRC32_VALUE(crc). Going on from the
-- checksum of some bytes with others gives that of both, and the value is the complement of 32 bits.
pub record Crc32 : Type 0 where
  pub begin : ℕ
  pub crc32 : ℕ → List ℕ → ℕ
  pub value : ℕ → ℕ
  pub begins : begin ≡ 0xFFFFFFFF
  pub crc32-nil : (crc : ℕ) → crc32 crc [] ≡ crc
  pub crc32-append : (crc : ℕ) (xs ys : List ℕ) → crc32 crc (xs ++ ys) ≡ crc32 (crc32 crc xs) ys
  pub value_complement : (crc : ℕ) → value crc ≡ 0xFFFFFFFF - crc

-- What `read` gives: some bytes, nothing at the end of the stream, or an error.
pub data Read : Type 0 where
  some_bytes : List ℕ → Read
  end_of_stream : Read
  failed : Read

-- `~crc`, of a `uint32_t`
abbrev pub complement : ℕ → ℕ
complement crc = 0xFFFFFFFF - crc

-- The buffer of each round, and the rounds.
abbrev pub block : List ℕ
block = replicate 4096 b'A'

unfoldable pub blocks : ℕ → List ℕ
blocks zero = []
blocks (suc n) = block ++ blocks n

module _ (c : Crc32) where
  -- The first loop: a block in each of `n` rounds.
  unfoldable pub crc_of_blocks : ℕ → ℕ → ℕ
  crc_of_blocks zero x = x
  crc_of_blocks (suc n) x = crc_of_blocks n (c.crc32 x block)

  unfoldable pub final_crc : ℕ
  final_crc = c.value (crc_of_blocks 1000 c.begin)

  -- The second loop, over what `read` gives. Behind an error, `read` has given -1 bytes, and `crc32` of so
  -- many is undefined.
  unfoldable pub read_loop : ℕ → List Read → Run ℕ
  read_loop crc [] = starved
  read_loop crc (end_of_stream ∷ reads) = ok crc
  read_loop crc (failed ∷ reads) = aborted
  read_loop crc (some_bytes buffer ∷ reads) =
      let crc' = c.crc32 crc buffer in
      let rest = read_loop crc' reads in if complement crc' == final_crc then ok crc' else rest

  -- `assert(crc == FINAL_CRC)`
  unfoldable pub check_crc : ℕ → Run (Unit {0})
  check_crc crc = if complement crc == final_crc then ok tt else aborted

  unfoldable pub verify : List Read → Run (Unit {0})
  verify reads = read_loop 0xFFFFFFFF reads >>= check_crc

-- The network, as far as the client sees it: whether connecting to an address and a port succeeds, and what
-- `read` gives on the socket afterwards.
pub record Network : Type 0 where
  pub connect : List ℕ → ℕ → Bool × List Read

abbrev pub server_address : List ℕ
server_address = 10 ∷ 0 ∷ 0 ∷ 42 ∷ []

abbrev pub port : ℕ
port = 6667

-- A failure to connect is reported, and nothing else.
unfoldable pub main : Crc32 → Network → Run (Unit {0})
main c network = let (connected, reads) = network.connect server_address port in verify c reads
