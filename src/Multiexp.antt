-- ===== src/Multiexp.antt =====
-- multiexp.cpp: the sum of scalar multiples of affine points, by windows of the scalars' bits. What
-- tbb::parallel_for leaves open is a parameter: a schedule lists the rounds of a loop in an order,
-- each with the index of the thread that runs it. Threads share no accumulator in these loops, so
-- that an order of whole rounds stands for every interleaving.
pub mod Sums
pub mod Chunks
pub mod Moves
pub mod Rows
pub mod Digits
pub mod Powers
pub mod Bytes
pub mod Process
pub mod Pack
pub mod Reduce
pub mod Whole
pub mod Product
use keyless_zk_proofs.Common.{
  ℕ, zero, suc, ◌+◌, ◌-◌, ◌*◌, ◌/◌, ◌%◌, ◌^◌, ◌≡◌, List, [], ◌∷◌, Bool, true, false, if◌then◌else◌,
  ◌==◌, ltb, get_or, take, drop,
}
use keyless_zk_proofs.BinFile.{word64, from_le}
use keyless_zk_proofs.Group.{AbelianGroup, Points}
use keyless_zk_proofs.Naf.Multiply.{naf_mul_by_scalar}

-- `1 << k`.
abbrev pub pow2 : ℕ → ℕ
pow2 zero = 1
pow2 (suc k) = 2 * pow2 k

-- `a - b` on uint64_t.
abbrev pub sub64 : ℕ → ℕ → ℕ
sub64 a b = if ltb a b then a + word64 - b else a - b

-- The byte from which getChunk reads eight, within a scalar of `scalar_size` bytes.
unfoldable pub chunk_byte : ℕ → ℕ → ℕ
chunk_byte scalar_size bit_start =
    let last_byte = sub64 scalar_size 8 in
    if ltb last_byte (bit_start / 8) then last_byte else bit_start / 8

-- efectiveBitsPerChunk: the last chunk may be narrower.
unfoldable pub chunk_width : ℕ → ℕ → ℕ → ℕ
chunk_width scalar_size bits bit_start =
    let all_bits = scalar_size * 8 % word64 in
    if ltb all_bits ((bit_start + bits) % word64) then sub64 all_bits bit_start else bits

-- getChunk: eight bytes are read, shifted and masked.
unfoldable pub get_chunk : List ℕ → ℕ → ℕ → ℕ → ℕ → ℕ
get_chunk scalars scalar_size bits scalar_idx chunk_idx =
    let bit_start = chunk_idx * bits % word64 in
    let byte_start = chunk_byte scalar_size bit_start in
    let shift = sub64 bit_start (byte_start * 8 % word64) in
    let v = from_le (take 8 (drop (scalar_idx * scalar_size + byte_start) scalars)) in
    v / pow2 shift % pow2 (chunk_width scalar_size bits bit_start)

-- Rounds of a loop, in an order, with the threads that run them.
abbrev pub Schedule : Type 0
Schedule = List (ℕ × ℕ)

-- multiexp's choice of bitsPerChunk, where `log2` is aptos::log2.
unfoldable pub bits_per_chunk : (ℕ → ℕ) → ℕ → ℕ
bits_per_chunk log2 n =
    let bits = log2 (n / 2 % 2 ^ 32) in
    let small = if ltb 16 bits then 16 else bits in if ltb small 2 then 2 else small

-- nChunks.
abbrev pub chunk_count : ℕ → ℕ → ℕ
chunk_count scalar_size bits = sub64 (scalar_size * 8 % word64) 1 / bits + 1

module _ {ℓ κ μ} {V : Type ℓ} {v : AbelianGroup V} {Point : Type κ} {PointAffine : Type μ}
    (g : Points v Point PointAffine) where
  -- `accs[a] = p`.
  unfoldable pub put : ℕ → Point → (ℕ → Point) → ℕ → Point
  put a p accs x = if x == a then p else accs x

  -- One round of processChunk, with the chunk's value of a point's scalar.
  unfoldable pub process_one : (ℕ → PointAffine) → (ℕ → ℕ) → ℕ → ℕ × ℕ → (ℕ → Point) → ℕ → Point
  process_one bases chunk_value accs_per_chunk (i, thread) accs =
      let a = thread * accs_per_chunk + chunk_value i in
      if g.is_zero_affine (bases i)
      then accs
      else if chunk_value i == 0
      then accs
      else put a (g.add_affine (accs a) (bases i)) accs

  -- processChunk(idChunk).
  unfoldable pub process_chunk :
      (ℕ → PointAffine) → (ℕ → ℕ) → ℕ → Schedule → (ℕ → Point) → ℕ → Point
  process_chunk bases chunk_value accs_per_chunk [] accs = accs
  process_chunk bases chunk_value accs_per_chunk (round ∷ rounds) accs =
      process_chunk bases chunk_value accs_per_chunk rounds
        (process_one bases chunk_value accs_per_chunk round accs)

  -- The body of packThreads' inner loop.
  unfoldable pub pack_one : ℕ → ℕ → ℕ → (ℕ → Point) → ℕ → Point
  pack_one accs_per_chunk i j accs =
      let a = j * accs_per_chunk + i in
      if g.is_zero (accs a)
      then accs
      else put a g.zero_point (put i (g.add_point (accs i) (accs a)) accs)

  -- `n` rounds of the inner loop from `j`.
  unfoldable pub pack_column : ℕ → ℕ → ℕ → ℕ → (ℕ → Point) → ℕ → Point
  pack_column accs_per_chunk i zero j accs = accs
  pack_column accs_per_chunk i (suc n) j accs =
      pack_column accs_per_chunk i n (suc j) (pack_one accs_per_chunk i j accs)

  -- packThreads.
  unfoldable pub pack_threads : ℕ → ℕ → Schedule → (ℕ → Point) → ℕ → Point
  pack_threads accs_per_chunk n_threads [] accs = accs
  pack_threads accs_per_chunk n_threads ((i, thread) ∷ rounds) accs =
      pack_threads accs_per_chunk n_threads rounds
        (pack_column accs_per_chunk i (n_threads - 1) 1 accs)

  -- One round of the loop of reduce: the accumulators, and the sums of the threads.
  unfoldable pub reduce_one : ℕ → ℕ × ℕ → (ℕ → Point) × (ℕ → Point) → (ℕ → Point) × (ℕ → Point)
  reduce_one ndiv2 (i, thread) (accs, sall) =
      let p = accs (ndiv2 + i) in
      if g.is_zero p then (accs, sall) else (
        put (ndiv2 + i) g.zero_point (put i (g.add_point (accs i) p) accs),
        put thread (g.add_point (sall thread) p) sall,
      )

  unfoldable pub reduce_half : ℕ → Schedule → (ℕ → Point) × (ℕ → Point) → (ℕ → Point) × (ℕ → Point)
  reduce_half ndiv2 [] s = s
  reduce_half ndiv2 (round ∷ rounds) s = reduce_half ndiv2 rounds (reduce_one ndiv2 round s)

  -- `for (i = 0; i < nThreads; i++) g.add(p, p, sall[i])`, `n` rounds from `i`.
  unfoldable pub add_all : ℕ → ℕ → (ℕ → Point) → Point → Point
  add_all zero i sall p = p
  add_all (suc n) i sall p = add_all n (suc i) sall (g.add_point p (sall i))

  -- `for (...) g.dbl(p, p)`, `n` times.
  unfoldable pub dbl_times : ℕ → Point → Point
  dbl_times zero p = p
  dbl_times (suc n) p = dbl_times n (g.dbl p)

  -- reduce(res, nBits) for nBits = k + 1, with a schedule for each depth: the result and the
  -- accumulators after it.
  unfoldable pub reduce : ℕ → (ℕ → Schedule) → ℕ → (ℕ → Point) → Point × (ℕ → Point)
  reduce n_threads schedules zero accs = (accs 1, put 1 g.zero_point accs)
  reduce n_threads schedules (suc k) accs =
      let ndiv2 = pow2 (suc k) in
      let (accs1, sall) = reduce_half ndiv2 (schedules (suc k)) (accs, λ t. g.cleared) in
      let accs2 = put ndiv2 (add_all n_threads 0 sall (accs1 ndiv2)) accs1 in
      let (p1, accs3) = reduce n_threads schedules k accs2 in
      let top = dbl_times (suc k) (accs3 ndiv2) in
      (g.add_point p1 top, put ndiv2 g.zero_point (put ndiv2 top accs3))

-- The schedules of the loops of one chunk.
pub record Plan : Type 0 where
  pub process : Schedule
  pub pack : Schedule
  pub halves : ℕ → Schedule

module _ {ℓ κ μ} {V : Type ℓ} {v : AbelianGroup V} {Point : Type κ} {PointAffine : Type μ}
    (g : Points v Point PointAffine) where
  -- The body of the loop over the chunks, for bitsPerChunk = k + 1.
  unfoldable pub one_chunk :
      (ℕ → PointAffine) → (ℕ → ℕ) → ℕ → ℕ → Plan → (ℕ → Point) → Point × (ℕ → Point)
  one_chunk bases chunk_value k n_threads plan accs =
      let accs_per_chunk = pow2 (suc k) in
      let accs1 = process_chunk g bases chunk_value accs_per_chunk plan.process accs in
      let accs2 = pack_threads g accs_per_chunk n_threads plan.pack accs1 in
      reduce g n_threads plan.halves k accs2

  -- `n` chunks from chunk `i`; their results, the last chunk's first.
  unfoldable pub all_chunks :
      (ℕ → PointAffine)
      → (ℕ → ℕ → ℕ)
      → ℕ
      → ℕ
      → (ℕ → Plan)
      → ℕ
      → ℕ
      → (ℕ → Point)
      → List Point
      → List Point
  all_chunks bases chunk_value k n_threads plans zero i accs results = results
  all_chunks bases chunk_value k n_threads plans (suc n) i accs results =
      let (r, accs1) = one_chunk bases (chunk_value i) k n_threads (plans i) accs in
      all_chunks bases chunk_value k n_threads plans n (suc i) accs1 (r ∷ results)

  -- `for (j = nChunks - 2; j >= 0; j--)`: `r` is doubled for each bit, and the chunk is added.
  unfoldable pub combine : ℕ → Point → List Point → Point
  combine bits r [] = r
  combine bits r (c ∷ cs) = combine bits (g.add_point (dbl_times g bits r) c) cs

  -- `r = chunkResults[nChunks - 1]` and that loop.
  unfoldable pub combine_all : ℕ → List Point → Point
  combine_all bits [] = g.zero_point
  combine_all bits (r ∷ rest) = combine bits r rest

  -- initAccs.
  abbrev pub init_accs : ℕ → Point
  init_accs a = g.zero_point

  -- multiexp. The GPU's branch is left out.
  unfoldable pub multiexp : (ℕ → ℕ) → (ℕ → PointAffine) → List ℕ → ℕ → ℕ → ℕ → (ℕ → Plan) → Point
  multiexp log2 bases scalars scalar_size n n_threads plans =
      if n == 0
      then g.zero_point
      else if n == 1
      then naf_mul_by_scalar g (bases 0) (take scalar_size scalars)
      else (let bits = bits_per_chunk log2 n in
          let chunk_value : ℕ → ℕ → ℕ = λ j i. get_chunk scalars scalar_size bits i j in
          combine_all bits (
            all_chunks bases chunk_value (bits - 1) n_threads plans (chunk_count scalar_size bits) 0
              init_accs []))
