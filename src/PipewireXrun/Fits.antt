-- ===== src/PipewireXrun/Fits.antt =====
-- pipewire-xrun/main.c: what on_process writes to the memory of a buffer.
use native.Mathlib.Nat.{
  mul-le-mul, mul-le-mul_left, mul-le-mul_right, mul_assoc, mul_comm, div-mul-le_self,
  mul-div_cancel,
}
use overthinkin.Base.{
  ℕ, zero, suc, ◌*◌, ◌/◌, ◌%◌, ◌^◌, ◌≤◌, ◌<◌, ◌==◌, false, ◌∷◌, some, length, length-append, ==_ne,
  ◌≡◌, ◌≢◌, refl, sym, ap, ◌∙◌, arith,
}
use overthinkin.PipewireXrun.Config.{Real, Spa, format_sample_size}
use overthinkin.PipewireXrun.Process.{
  SynthState, Buffer, Chunk, BenchContext, repeated, next_phase, synth_fill, stride_of, frames_of,
  sample_bytes, format_of, fill_frames, fill_buffer,
}

length-repeated : {S : Type 0} (n : ℕ) (x : S) → length (repeated n x) ≡ n
length-repeated zero x = refl
length-repeated (suc n) x = ap suc (length-repeated n x)

-- n frames of c samples, in a memory of m bytes.
written-le :
    (n c bytes size stride : ℕ) → stride ≡ size * c → bytes ≤ size → n * c * bytes ≤ n * stride
written-le n c bytes size stride e le =
    let more = mul-le-mul_left (n * c) le in
    let same : n * c * size ≡ n * stride =
      mul_assoc n c size ∙ ap (λ x. n * x) (mul_comm c size ∙ sym e) in
    omega (arith, more, same)

frames-fit : (n stride m : ℕ) → n ≤ m / stride → n * stride ≤ m
frames-fit n stride m h = omega (arith, mul-le-mul_right stride h, div-mul-le_self m stride)

module _ (real : Real) (spa : Spa) where
  open real use {Double}

  length-synth_fill :
      {S : Type 0} (f : Double → S) (n c : ℕ) (s : SynthState Double)
      → length (synth_fill real f n c s).1 ≡ n * c
  unfolding synth_fill
  length-synth_fill f zero c s = omega arith
  length-synth_fill f (suc n) c s =
      let x = f (real.sin s.phase) in
      let r = length-synth_fill f n c (next_phase real s) in
      omega (
        arith,
        length-append (repeated c x) (synth_fill real f n c (next_phase real s)).1,
        length-repeated c x,
        r,
      )

  -- The chunk that fill_buffer gives back.
  abbrev chunk_of : Buffer → BenchContext Double → Chunk
  chunk_of b ctx =
      let stride = stride_of real spa (format_of real ctx) ctx.config.channels in
      let n = frames_of real b stride in
      record {
        offset = 0;
        stride = stride;
        size = n * stride % 2 ^ 32;
        written = n * ctx.config.channels * sample_bytes real spa (format_of real ctx);
        room = b.maxsize;
      }

  filled :
      (b : Buffer) (ctx : BenchContext Double)
      → (stride_of real spa (format_of real ctx) ctx.config.channels == 0) ≡ false
      → (ctx' : BenchContext Double) × (fill_buffer real spa b ctx ≡ some ctx')
        × (ctx'.given_back ≡ some (chunk_of b ctx) ∷ ctx.given_back)
  unfolding fill_buffer fill_frames
  filled b ctx h =
      let n = frames_of real b (stride_of real spa (format_of real ctx) ctx.config.channels) in
      let l = length-synth_fill (λ x. x) n ctx.config.channels ctx.synth in
      let stride = stride_of real spa (format_of real ctx) ctx.config.channels in
      (fill_frames real spa b stride ctx, rw h, rw l)

  stride-eq :
      (f c : ℕ)
      → format_sample_size spa f ≢ 0
      → format_sample_size spa f * c < 2 ^ 32
      → stride_of real spa f c ≡ format_sample_size spa f * c
  unfolding stride_of
  stride-eq f c z h =
      let e : (format_sample_size spa f == 0) ≡ false = (==_ne (format_sample_size spa f) 0).1 z in
      rw e (omega arith)

  frames-le : (b : Buffer) (s : ℕ) → frames_of real b s ≤ b.maxsize / s
  unfolding frames_of
  frames-le b s = ground arith

  frames-all :
      (b : Buffer) (s k : ℕ)
      → b.requested ≡ 0
      → 0 < s
      → b.maxsize ≡ suc k * s
      → frames_of real b s ≡ suc k
  unfolding frames_of
  frames-all b s k r p m =
      let q : b.maxsize / s ≡ suc k = ap (λ x. x / s) m ∙ mul-div_cancel (suc k) p in rw (r, q)

  one-byte : (f : ℕ) → format_sample_size spa f ≡ 1 → sample_bytes real spa f ≡ 4
  unfolding format_sample_size
  one-byte f h = ground arith

  -- fill_buffer, the filling half of on_process, gives a buffer back with what was written to its
  -- memory within the size of the chunk, and that within the memory; if the sample size of the
  -- format is no less than that of the samples which are written, there are channels, and neither
  -- the memory nor a frame has 2 ^ 32 bytes.
  pub fill_buffer-fits :
      (b : Buffer) (ctx : BenchContext Double)
      → sample_bytes real spa (format_of real ctx) ≤ format_sample_size spa (format_of real ctx)
      → format_sample_size spa (format_of real ctx) * ctx.config.channels < 2 ^ 32
      → 0 < ctx.config.channels
      → b.maxsize < 2 ^ 32
      → (ctx' : BenchContext Double) × (c : Chunk) × (fill_buffer real spa b ctx ≡ some ctx')
        × (ctx'.given_back ≡ some c ∷ ctx.given_back)
        × (c.written ≤ c.size)
        × (c.size ≤ b.maxsize)
  fill_buffer-fits b ctx le h p m =
      let f = format_of real ctx in
      let size = format_sample_size spa f in
      let ch = ctx.config.channels in
      let two : 2 ≤ sample_bytes real spa f = ground arith in
      let stride = stride_of real spa f ch in
      let n = frames_of real b stride in
      let e = stride-eq f ch (λ z. omega arith) h in
      let pos' = mul-le-mul {n₁ = 1} {m₁ = 1} {n₂ = size} {m₂ = ch} (omega arith) p in
      let nz : (stride == 0) ≡ false = (==_ne stride 0).1 (λ z. omega (arith, e, z)) in
      let room = frames-fit n stride b.maxsize (frames-le b stride) in
      let fit = written-le n ch (sample_bytes real spa f) size stride e le in
      let (ctx', eq, back) = filled b ctx nz in
      (ctx', chunk_of b ctx, eq, back, omega arith, omega arith)

  -- With a format of one byte a sample, which validate_config accepts, fill_buffer writes past the
  -- end of a memory that holds some frames, and no part of one, of less than 2 ^ 32 channels, where
  -- the stream does not ask for a number of frames: four bytes for each sample.
  pub fill_buffer-overruns :
      (b : Buffer) (ctx : BenchContext Double) (k : ℕ)
      → format_sample_size spa (format_of real ctx) ≡ 1
      → 0 < ctx.config.channels
      → ctx.config.channels < 2 ^ 32
      → b.requested ≡ 0
      → b.maxsize ≡ suc k * ctx.config.channels
      → (ctx' : BenchContext Double) × (c : Chunk) × (fill_buffer real spa b ctx ≡ some ctx')
        × (ctx'.given_back ≡ some c ∷ ctx.given_back)
        × (c.written ≡ 4 * b.maxsize)
        × (b.maxsize < c.written)
  fill_buffer-overruns b ctx k one p small r m =
      let f = format_of real ctx in
      let ch = ctx.config.channels in
      let stride = stride_of real spa f ch in
      let single : format_sample_size spa f * ch ≡ ch = ap (λ x. x * ch) one ∙ omega arith in
      let e : stride ≡ ch = stride-eq f ch (λ z. omega (arith, one, z)) (omega arith) ∙ single in
      let nz : (stride == 0) ≡ false = (==_ne stride 0).1 (λ z. omega (arith, e, z)) in
      let m' : b.maxsize ≡ suc k * stride = m ∙ ap (λ x. suc k * x) (sym e) in
      let n = frames-all b stride k r (omega arith) m' in
      let four = one-byte f one in
      let (ctx', eq, back) = filled b ctx nz in
      let all : frames_of real b stride * ch ≡ b.maxsize = ap (λ x. x * ch) n ∙ sym m in
      let w : frames_of real b stride * ch * sample_bytes real spa f ≡ 4 * b.maxsize =
        rw (all, four) (omega arith) in
      let some_room = mul-le-mul {n₁ = 1} {m₁ = 1} {n₂ = suc k} {m₂ = ch} (omega arith) p in
      (ctx', chunk_of b ctx, eq, back, w, omega (arith, w, some_room))
