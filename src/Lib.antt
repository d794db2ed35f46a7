-- ===== src/Lib.antt =====
-- A model of the proving service's C++ core (rust-rapidsnark/rapidsnark/src): the arithmetic of the
-- prime fields of BN254, sums of scalar multiples of points, the Fourier transform, the Groth16 prover,
-- the reader of the sectioned files that hold keys and witnesses, and the service that loads a key
-- and answers with proofs.
--
-- The parts, from the inside out:
--   Common, Common/*: Boolean tests, lists over the native numbers, signed integers, congruences.
--   Mpn, Mpn/*: what the code relies on of GMP's mpn_* functions, as a record `Gmp` of functions and
--     their documented laws, limbs and their value; `Mpn.Reference.reference` computes with them.
--   Raw, Raw/*: fr_raw_generic.cpp. `Modulus` has the constants of a field, and `Raw.Fields` those of
--     fr_raw_generic.cpp and fq_raw_generic.cpp, which differ in nothing else. A function
--     Fr_rawAdd(result, a, b) is `raw_add g m a b`: the limbs that it leaves in `result`.
--   Element, Element/*: fr_generic.cpp and fr_element.hpp. An element has an integer, a kind (one of
--     the four types) and limbs. Functions on pointers are functions on a memory of elements, so that
--     the destination may be an operand: Fr_add(r, a, b) is `add g m uninit r a b`, where `uninit`
--     is what a local element holds at first. `Element.Meaning.Represents` says which number modulo
--     q an element stands for.
--   Outcome: how a call ends: a result, an exception, a failed assertion, or undefined behaviour.
--   BinFile, BinFile/*: binfile_utils.cpp and binfile_utils.hpp. Pointers into the file are distances
--     from its start, and positions are 64-bit words. `BinFile.Format` writes the format out.
--   Headers, Headers/*: zkey_utils.hpp and wtns_utils.hpp.
--   Prover, Prover/*: fullprover.cpp, fullprover.hpp and fileloader.hpp.
--   Group, Group/*: the points that exp.hpp and multiexp.cpp compute with, as an interface: `Points`
--     has the operations of the class Curve and their values in an abelian group.
--   Field, Field/*: the field that f2field.cpp and curve.cpp compute over, as an
--     interface: `BaseField` has the
--     operations of a class such as RawFq and their values in a commutative ring; the remainders
--     modulo a number are such a ring.
--   RawField, RawField/*: fq.hpp and fq.cpp. `raw_field` fills that interface with the limbs in
--     Montgomery form.
--   F2Field, F2Field/*: f2field.cpp and f2field.hpp.
--   Curve, Curve/*: curve.cpp and curve.hpp, over the same interface. The overloads of add are
--     `add_points`, `add_mixed` and `add_affines`, and likewise for the others.
--   Naf, Naf/*: naf.cpp and exp.hpp. A word of NAFTable is the list of its eight bytes, and buildNaf
--     is `build_naf`; a scalar is the list of its bytes.
--   Multiexp, Multiexp/*: multiexp.cpp. The accumulators are a function from places to points; a
--     member function of ParallelMultiexp takes the members that it uses as arguments. A loop of
--     tbb::parallel_for takes a `Schedule`: its rounds in an order, each with its thread.
--   Fft, Fft/*: fft.cpp and fft.hpp, over the field's interface. An array is a function from indices
--     to elements. A loop of tbb::parallel_for takes its rounds in an order, as a list of indices;
--     `Fft.Rounds` has what every such loop with disjoint cells does. `Fft.Roots.IsRootTable` says
--     what the tables of roots hold, and `Fft.Table.make_fft` is the constructor that computes them.
--   Groth16, Groth16/*: groth16.cpp and groth16.hpp. `Groth16.Arrays` is prove on the arrays a, b and
--     c, `Groth16.Sampling` the sampling of r and s, `Groth16.Prove` the rest. The interface
--     `ScalarField` has what is used of RawFr beside its arithmetic; `Groth16.RawScalars` fills it.
--   Tests, Tests/*: the theorems at concrete inputs.
--
-- Bounds: the modulus lies between 2 ^ 253 and 2 ^ 254, so that a sum of two residues has no
-- carry; integers of elements are 32-bit and their sums and products are exact 64-bit integers.
-- The loops over limbs are unrolled for Fr_N64 = 4, as the source fixes it. The loop over a file's
-- sections runs on their number, that of buildNaf on the scalar's bytes, and reduce on the chunk's
-- bits. Three loops have fuel: that of log2 has 64 rounds, which is enough for every uint64_t, and
-- the ones that sample r and s and that look for a number whose power is not 1 have as many as an
-- argument says, enough as soon as that reaches a draw, or a number, that ends the loop. The loop
-- that halves (q - 1) / 2 counts up to domainPow and so has that many rounds. A chunk has 2 to 16
-- bits, so that its mask is an int; places of accumulators and positions in the scalars are
-- natural numbers, the counts of bits 64-bit words. nafMulByScalar counts digits in an int,
-- which the model wraps: below 2 ^ 28 bytes it is not negative. The range of processChunk is of
-- uint32_t, so that its schedules run fewer than 2 ^ 32 bases. The loops of fft.cpp and
-- groth16.cpp count in an int: in reversePermutation, fft and ifft the rounds from 2 ^ 31 on are
-- not run, as an int that has turned negative lies above every end; in groth16.cpp's own loops the
-- model does not wrap: domains have at most 2 ^ 30 elements, and fewer than 2 ^ 31 coefficients
-- are meant.
--
-- Parameters: GMP's functions, what mpz_import makes of bytes and what mpz_invert and mpz_powm
-- give, fromMpz in the constructor of FFT, the operating system's open, fstat and mmap, what
-- randombytes_buf gives, the Groth16 prover that the service calls (fullprover.cpp sees it through
-- makeProver and prove), the orders in which tbb runs the rounds of a loop, and the group of
-- points: that the formulas of curve.cpp compute a group is assumed there.
--
-- Not modelled: the order, the bitwise operations and the shifts of field elements,
-- multi-exponentiation with strides; conversions from and to strings; the assembly variant of the
-- fields; logging, metrics and the GPU backend.
pub mod Common
pub mod Mpn
pub mod Raw
pub mod Element
pub mod Outcome
pub mod BinFile
pub mod Headers
pub mod Prover
pub mod Group
pub mod Field
pub mod F2Field
pub mod RawField
pub mod Curve
pub mod Naf
pub mod Multiexp
pub mod Fft
pub mod Groth16
pub mod Tests
