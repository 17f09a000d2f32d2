-- ===== src/Deflate/Compress/Bounded.antt =====
-- The encoder of C-Deflate/src/deflate.c never writes beyond its buffer, whatever it is given.
use foundations_lab.Base.{
  ℕ, zero, suc, ◌+◌, ◌-◌, ◌≤◌, ◌<◌, ◌≡◌, refl, subst, arith, Bool, true, false≢true, List, [], ◌∷◌,
  some, length, length-append, get_or, ltb, leb, bit_and, ◌==◌, if◌then◌else◌, Bool-cases,
  Option-cases, none-ne-some, ◌*◌, ◌&&◌, inl, inr, tests,
}
use foundations_lab.Deflate.Bits.{
  BitWriter, pos, bw_init, put_byte, flush, bw_bits, bw_code, bw_align, bw_finish,
}
use foundations_lab.Deflate.Status.{Result, ok, output, ok-injective, err-ne-ok, guard-eq-ok}
use foundations_lab.Deflate.Window.{Token}
use foundations_lab.Deflate.Lz77.{lz77_parse}
use foundations_lab.Deflate.Fixed.{fixed_lit_lengths, fixed_dist_lengths}
use foundations_lab.Deflate.Emit.{
  token_bits, Codes, emit_extra, emit_token, emit_tokens, emit_bytes, emit_stored, emit_chunks,
}
use foundations_lab.Deflate.Compress.{
  Dynamic, Heap, plan_dynamic, dynamic_bits, finish, extra_width, emit_codelens, emit_packed,
  emit_dynamic, emit_fixed, emit_smallest, compress_tokens, compress_parsed, deflate_compress,
}

-- No byte is written beyond the buffer, and the flag stands for a full buffer.
abbrev pub IsBounded : ℕ → BitWriter → Type 0
IsBounded cap w = (length w.out ≤ cap) × (w.cap ≡ cap) × (w.overflow ≡ true → length w.out ≡ cap)

module _ (cap : ℕ) where
  put_byte-IsBounded :
      (w : BitWriter) → length w.out < cap → IsBounded cap w → IsBounded cap (put_byte w)
  unfolding put_byte
  put_byte-IsBounded w room (_, same, full) = (
    omega (arith, length-append w.out (bit_and w.bit_buf 0xff ∷ [])),
    same,
    λ over. (let at_end = full over in absurd (omega arith)),
  )

  flush-IsBounded : (fuel : ℕ) (w : BitWriter) → IsBounded cap w → IsBounded cap (flush fuel w)
  unfolding flush
  flush-IsBounded zero w h = h
  flush-IsBounded (suc fuel) w h = elim (Bool-cases (ltb w.bit_count 8)) [
    | inl small ↦ rw small h
    | inr big ↦ elim (Bool-cases (leb w.cap (pos w))) [
      | inl full ↦ rw (big, full) (h.0, h.1, λ over. omega (tests, h.0, h.1))
      | inr room ↦
          rw (big, room)
            (flush-IsBounded fuel (put_byte w) (put_byte-IsBounded w (omega (tests, h.1)) h))
    ]
  ]

  bw_bits-IsBounded : (w : BitWriter) (v n : ℕ) → IsBounded cap w → IsBounded cap (bw_bits w v n)
  unfolding bw_bits
  bw_bits-IsBounded w v n h = flush-IsBounded (w.bit_count + n) _ h

  bw_code-IsBounded : (w : BitWriter) (v n : ℕ) → IsBounded cap w → IsBounded cap (bw_code w v n)
  unfolding bw_code
  bw_code-IsBounded w v n h = bw_bits-IsBounded w _ n h

  bw_align-IsBounded : (w : BitWriter) → IsBounded cap w → IsBounded cap (bw_align w)
  unfolding bw_align
  bw_align-IsBounded w h = elim (Bool-cases (ltb 0 w.bit_count)) [
    | inl some_bits ↦ rw some_bits (bw_bits-IsBounded w 0 (8 - w.bit_count) h)
    | inr aligned ↦ rw aligned h
  ]

  emit_extra-IsBounded :
      (w : BitWriter) (v base n : ℕ) → IsBounded cap w → IsBounded cap (emit_extra w v base n)
  unfolding emit_extra
  emit_extra-IsBounded w v base n h = elim (Bool-cases (n == 0)) [
    | inl empty ↦ rw empty h
    | inr some_bits ↦ rw some_bits (bw_bits-IsBounded w (v - base) n h)
  ]

  emit_token-IsBounded :
      (c : Codes) (w : BitWriter) (t : Token) → IsBounded cap w → IsBounded cap (emit_token c w t)
  unfolding emit_token
  emit_token-IsBounded c w t h = elim (Bool-cases (t.length == 0)) [
    | inl literal ↦ simp literal (bw_code-IsBounded w _ _ h)
    | inr is_match ↦ simp is_match (
        emit_extra-IsBounded _ _ _ _
          (bw_code-IsBounded _ _ _ (emit_extra-IsBounded _ _ _ _ (bw_code-IsBounded w _ _ h))))
  ]

  emit_tokens-IsBounded :
      (c : Codes) (w : BitWriter) (ts : List Token)
      → IsBounded cap w
      → IsBounded cap (emit_tokens c w ts)
  unfolding emit_tokens
  emit_tokens-IsBounded c w [] h = bw_code-IsBounded w _ _ h
  emit_tokens-IsBounded c w (t ∷ ts) h =
      emit_tokens-IsBounded c (emit_token c w t) ts (emit_token-IsBounded c w t h)

  emit_bytes-IsBounded :
      (w : BitWriter) (bs : List ℕ) → IsBounded cap w → IsBounded cap (emit_bytes w bs)
  unfolding emit_bytes
  emit_bytes-IsBounded w [] h = h
  emit_bytes-IsBounded w (b ∷ bs) h =
      emit_bytes-IsBounded (bw_bits w b 8) bs (bw_bits-IsBounded w b 8 h)

  pub emit_stored-IsBounded :
      (w : BitWriter) (bs : List ℕ) (final : Bool)
      → IsBounded cap w
      → IsBounded cap (emit_stored w bs final)
  unfolding emit_stored
  emit_stored-IsBounded w bs final h = emit_bytes-IsBounded _ bs (
      bw_bits-IsBounded _ _ 16 (
        bw_bits-IsBounded _ _ 16 (
          bw_align-IsBounded _
            (bw_bits-IsBounded _ 0 2 (bw_bits-IsBounded w (if final then 1 else 0) 1 h)))))

  pub emit_chunks-IsBounded :
      (fuel : ℕ) (w : BitWriter) (left : List ℕ)
      → IsBounded cap w
      → IsBounded cap (emit_chunks fuel w left)
  unfolding emit_chunks
  emit_chunks-IsBounded zero w left h = h
  emit_chunks-IsBounded (suc fuel) w left h = elim (Bool-cases (ltb 0 (length left))) [
    | inr empty ↦ rw empty h
    | inl some_left ↦ rw some_left (emit_chunks-IsBounded fuel _ _ (emit_stored-IsBounded w _ _ h))
  ]

  emit_codelens-IsBounded :
      (left i : ℕ) (ls : List ℕ) (w : BitWriter)
      → IsBounded cap w
      → IsBounded cap (emit_codelens left i ls w)
  unfolding emit_codelens
  emit_codelens-IsBounded zero i ls w h = h
  emit_codelens-IsBounded (suc left) i ls w h =
      emit_codelens-IsBounded left (i + 1) ls _ (bw_bits-IsBounded w _ 3 h)

  emit_packed-IsBounded :
      (d : Dynamic) (ps : List (ℕ × ℕ)) (w : BitWriter)
      → IsBounded cap w
      → IsBounded cap (emit_packed d ps w)
  unfolding emit_packed
  emit_packed-IsBounded d [] w h = h
  emit_packed-IsBounded d ((s, e) ∷ ps) w h =
      let coded = bw_code-IsBounded w (get_or d.cl_code s 0) (get_or d.cl_len s 0) h in
      elim (Bool-cases (extra_width s == 0)) [
        | inl plain ↦ simp plain (emit_packed-IsBounded d ps _ coded)
        | inr extra ↦
            simp extra (emit_packed-IsBounded d ps _ (bw_bits-IsBounded _ e (extra_width s) coded))
      ]

  pub emit_smallest-IsBounded :
      (w : BitWriter) (input : List ℕ) (ts : List Token) (d : Dynamic)
      → IsBounded cap w
      → IsBounded cap (emit_smallest w input ts d)
  unfolding emit_smallest emit_fixed emit_dynamic
  emit_smallest-IsBounded w input ts d h =
      let fixed_bits = 3 + token_bits ts fixed_lit_lengths fixed_dist_lengths in
      let stored_bits = 3 + 32 + length input * 8 in
      elim (Bool-cases (leb stored_bits fixed_bits && leb stored_bits (dynamic_bits ts d))) [
        | inl stored ↦ rw stored chunks
        | inr coded ↦ elim (Bool-cases (leb fixed_bits (dynamic_bits ts d))) [
          | inl fixed_wins ↦ rw (coded, fixed_wins) fixed
          | inr dynamic_wins ↦ rw (coded, dynamic_wins) dynamic
        ]
      ]
    where
      chunks : IsBounded cap (emit_chunks (length input) w input)
      chunks = emit_chunks-IsBounded (length input) w input h

      fixed : IsBounded cap (emit_fixed w ts)
      fixed = emit_tokens-IsBounded _ _ ts (bw_bits-IsBounded _ 1 2 (bw_bits-IsBounded w 1 1 h))

      dynamic : IsBounded cap (emit_dynamic w ts d)
      dynamic = emit_tokens-IsBounded d.codes _ ts (
          emit_packed-IsBounded d d.packed _ (
            emit_codelens-IsBounded d.hclen 0 d.cl_len _ (
              bw_bits-IsBounded _ _ 4 (
                bw_bits-IsBounded _ _ 5 (
                  bw_bits-IsBounded _ _ 5 (bw_bits-IsBounded _ 2 2 (bw_bits-IsBounded w 1 1 h)))))))

  pub bw_finish-IsBounded : (w : BitWriter) → IsBounded cap w → IsBounded cap (bw_finish w)
  unfolding bw_finish
  bw_finish-IsBounded w h = bw_align-IsBounded w h

  finish-bounded :
      (w : BitWriter) (out : List ℕ) → IsBounded cap w → finish w ≡ ok out → length out ≤ cap
  unfolding finish bw_finish
  finish-bounded w out h e =
      let (_, same) = guard-eq-ok (bw_align w).overflow output (ok (bw_align w).out) e in
      subst (λ (o : List ℕ). length o ≤ cap) (ok-injective same) (bw_align-IsBounded w h).0

  pub bw_init-IsBounded : IsBounded cap (bw_init cap)
  unfolding bw_init
  bw_init-IsBounded = (omega arith, refl, λ over. absurd (false≢true over))

some-ok : {a b : Result (List ℕ)} → some a ≡ some b → a ≡ b
some-ok e = cc

compress_tokens-bounded :
    (cap : ℕ) (w : BitWriter) (input out : List ℕ) (ts : List Token)
    → IsBounded cap w
    → compress_tokens w input ts ≡ some (ok out)
    → length out ≤ cap
unfolding compress_tokens
compress_tokens-bounded cap w input out ts h e = elim (Option-cases (plan_dynamic ts)) [
  | inr (d, planned) ↦
      finish-bounded cap (emit_smallest w input ts d) out
        (emit_smallest-IsBounded cap w input ts d h) (some-ok (rw planned at e))
  | inl out_of_fuel ↦ absurd (none-ne-some (rw out_of_fuel at e))
]

compress_parsed-bounded :
    (m : Heap) (cap level : ℕ) (w : BitWriter) (input out : List ℕ)
    → IsBounded cap w
    → compress_parsed m w input level ≡ some (ok out)
    → length out ≤ cap
unfolding compress_parsed
compress_parsed-bounded m cap level w input out h e = elim (Bool-cases m.tokens) [
  | inr refused ↦ absurd (err-ne-ok (some-ok (simp refused at e)))
  | inl given ↦ elim (Option-cases (lz77_parse input level m.chains m.prev)) [
    | inl no_memory ↦ absurd (err-ne-ok (some-ok (simp (given, no_memory) at e)))
    | inr (ts, parsed) ↦ compress_tokens-bounded cap w input out ts h (simp (given, parsed) at e)
  ]
]

-- What `deflate_compress` returns fits the buffer.
pub deflate_compress_fits :
    (m : Heap) (input out : List ℕ) (cap level : ℕ)
    → deflate_compress m input cap level ≡ some (ok out)
    → length out ≤ cap
unfolding deflate_compress
deflate_compress_fits m input out cap level e =
    let start = bw_init-IsBounded cap in
    let level' = if ltb 9 level then 6 else level in
    elim (Bool-cases (length input == 0)) [
      | inl empty ↦
          finish-bounded cap (emit_stored (bw_init cap) [] true) out
            (emit_stored-IsBounded cap (bw_init cap) [] true start) (some-ok (rw empty at e))
      | inr some_bytes ↦ elim (Bool-cases (level' == 0)) [
        | inl store ↦
            finish-bounded cap (emit_chunks (length input) (bw_init cap) input) out
              (emit_chunks-IsBounded cap (length input) (bw_init cap) input start)
              (some-ok (rw (some_bytes, store) at e))
        | inr matched ↦
            compress_parsed-bounded m cap level' (bw_init cap) input out start
              (rw (some_bytes, matched) at e)
      ]
    ]
