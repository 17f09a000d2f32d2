-- ===== src/Deflate/Lz77/Parse.antt =====
-- The parse of C-Deflate/src/deflate.c: the decoder makes the input again out of the tokens.
use foundations_lab.Base.{
  ℕ, zero, suc, ◌+◌, ◌-◌, ◌^◌, ◌≤◌, ◌<◌, ◌≡◌, ◌⊎◌, refl, ap, ◌∙◌, sym, List, [], ◌∷◌, ◌++◌, arith,
  length, take, length-take, ne→==, Option, some, ltb, leb, ◌==◌, tests, Bool-cases, inl, inr, true,
  false, Bool,
}
use foundations_lab.Deflate.Tables.{min_match}
use foundations_lab.Deflate.Window.{Token, expand_token, expand, IsToken, IsReachable}
use foundations_lab.Deflate.Window.Copy.{take-snoc, copy_match-take, expand-snoc, IsReachable-snoc}
use foundations_lab.Deflate.Huffman.{u16}
use foundations_lab.Deflate.Lz77.{
  LevelConfig, Slots, to_int32, write_slot, byte, hash3, Chains, ParseState, literal_token,
  match_token, insert, insert_run, step_greedy, step_lazy,
}
use foundations_lab.Deflate.Lz77.Match.{IsInt32, IsMatchAt, IsFound}

write_slot-IsInt32 :
    (slots : Slots) (i : ℕ) (v : Option ℕ)
    → IsInt32 slots
    → ((c : ℕ) → v ≡ some c → c < 2 ^ 31)
    → IsInt32 (write_slot slots i v)
write_slot-IsInt32 slots i v ok h j c e = elim (Bool-cases (i == j)) [
  | inl here ↦ h c (rw here at e)
  | inr other ↦ ok j c (rw other at e)
]

to_int32-lt : (pos c : ℕ) → to_int32 pos ≡ some c → c < 2 ^ 31
to_int32-lt pos c e = ground arith

abbrev pub IsSound : Chains → Type 0
IsSound c = IsInt32 c.head × IsInt32 c.prev

pub insert-IsSound : (input : List ℕ) (k : ℕ) (c : Chains) → IsSound c → IsSound (insert input k c)
unfolding insert
insert-IsSound input k c (h, p) = (
  write_slot-IsInt32 c.head _ _ h (to_int32-lt k),
  write_slot-IsInt32 c.prev _ _ p (h (hash3 input k)),
)

insert_run-IsSound :
    (input : List ℕ) (left k : ℕ) (c : Chains) → IsSound c → IsSound (insert_run input left k c)
unfolding insert_run
insert_run-IsSound input zero k c ok = ok
insert_run-IsSound input (suc left) k c ok =
    elim (Bool-cases (leb (k + min_match) (length input))) [
      | inl more ↦
          rw more
            (insert_run-IsSound input left (k + 1) (insert input k c) (insert-IsSound input k c ok))
      | inr ended ↦ rw ended ok
    ]

-- A literal, and a match, go on from a prefix of the input to a longer one.
expand-literal :
    (input : List ℕ) (p : ℕ)
    → p < length input
    → expand_token (take p input) (literal_token (byte input p)) ≡ take (p + 1) input
unfolding expand_token
expand-literal input p h = take-snoc p input (byte input p) h refl

expand-match :
    (input : List ℕ) (p len dist : ℕ)
    → 3 ≤ len
    → IsMatchAt input p len dist
    → expand_token (take p input) (match_token len dist) ≡ take (p + len) input
unfolding expand_token
expand-match input p len dist lo m =
    let len_fits : u16 len ≡ len = omega arith in
    let dist_fits : u16 dist ≡ dist = omega arith in
    let sized = length-take p input (omega arith) in
    rw (len_fits, dist_fits, ne→== len 0 (omega arith), sized)
      (copy_match-take len (p - dist) p input (omega arith) m.inside m.same)

pub match-IsToken :
    (input : List ℕ) (p len dist : ℕ)
    → 3 ≤ len
    → IsMatchAt input p len dist
    → IsToken (match_token len dist)
match-IsToken input p len dist lo m = inr (omega arith, omega arith, omega arith, omega arith)

-- Where the parse stands: the tokens make the input up to `pos`, or up to the byte before it, from
-- which on a match is held back.
pub data IsAt (input : List ℕ) (s : ParseState) : Type 0 where
  settled : s.have_prev ≡ false → expand [] s.tokens ≡ take s.pos input → IsAt input s
  held :
      s.have_prev ≡ true
      → expand [] s.tokens ≡ take s.prev_pos input
      → s.pos ≡ s.prev_pos + 1
      → 3 ≤ s.prev_len
      → IsMatchAt input s.prev_pos s.prev_len s.prev_dist
      → IsAt input s

pub record IsParsed (input : List ℕ) (lazy : Bool) (s : ParseState) : Type 0 where
  pub sound : IsSound s.chains
  pub in_range : s.pos ≤ length input
  pub tokens : IsReachable [] s.tokens
  pub place : IsAt input s
  pub undeferred : (lazy ≡ true) ⊎ (s.have_prev ≡ false)

pub settled_prefix :
    (input : List ℕ) (s : ParseState)
    → IsAt input s
    → s.have_prev ≡ false
    → expand [] s.tokens ≡ take s.pos input
settled_prefix input s (settled off e) h = e
settled_prefix input s (held on e _ _ _) h = absurd (true_false (sym on ∙ h))
  where
    true_false : true ≡ false → ⊥
    true_false k = cc

long_match :
    (input : List ℕ) (p : ℕ) (found : ℕ × ℕ)
    → IsFound input p found
    → 3 ≤ found.0
    → IsMatchAt input p found.0 found.1
long_match input p found (inl none_found) h = absurd (omega arith)
long_match input p found (inr (_, m)) h = m

module _ (input : List ℕ) (bytes : (i : ℕ) → byte input i < 256) where
  -- Both kinds of token, emitted behind a prefix.
  literal_behind :
      (ts : List Token) (p : ℕ)
      → p < length input
      → expand [] ts ≡ take p input
      → expand [] (ts ++ (literal_token (byte input p) ∷ [])) ≡ take (p + 1) input
  literal_behind ts p h e =
      let t = literal_token (byte input p) in
      expand-snoc ts [] t ∙ ap (λ (o : List ℕ). expand_token o t) e ∙ expand-literal input p h

  pub match_behind :
      (ts : List Token) (p len dist : ℕ)
      → 3 ≤ len
      → IsMatchAt input p len dist
      → expand [] ts ≡ take p input
      → expand [] (ts ++ (match_token len dist ∷ [])) ≡ take (p + len) input
  match_behind ts p len dist lo m e =
      let t = match_token len dist in
      expand-snoc ts [] t
      ∙ ap (λ (o : List ℕ). expand_token o t) e
      ∙ expand-match input p len dist lo m

  push_literal :
      (ts : List Token) (p : ℕ)
      → IsReachable [] ts
      → IsReachable [] (ts ++ (literal_token (byte input p) ∷ []))
  push_literal ts p h =
      IsReachable-snoc ts [] (literal_token (byte input p)) h (inl (refl, bytes p)) (omega arith)

  push_match :
      (ts : List Token) (p len dist : ℕ)
      → 3 ≤ len
      → IsMatchAt input p len dist
      → expand [] ts ≡ take p input
      → IsReachable [] ts
      → IsReachable [] (ts ++ (match_token len dist ∷ []))
  push_match ts p len dist lo m e h =
      IsReachable-snoc ts [] (match_token len dist) h (match-IsToken input p len dist lo m) (
        omega (
          arith,
          ap length e,
          length-take p input (omega (arith, m.inside)),
          m.dist_pos_le,
          m.dist_window,
        ))

  pub step_greedy-IsParsed :
      (cfg : LevelConfig) (s : ParseState) (len dist : ℕ)
      → IsParsed input cfg.lazy s
      → s.have_prev ≡ false
      → s.pos < length input
      → IsFound input s.pos (len, dist)
      → IsParsed input cfg.lazy (step_greedy input cfg s len dist)
  unfolding step_greedy
  step_greedy-IsParsed cfg s len dist inv off more found =
      let before = settled_prefix input s inv.place off in
      elim (Bool-cases (leb min_match len)) [
        | inl long ↦
            let lo : 3 ≤ len = omega tests in
            let m = long_match input s.pos (len, dist) found lo in
            rw long (record {
              sound = insert_run-IsSound input (len - 1) (s.pos + 1) s.chains inv.sound;
              in_range = m.inside;
              tokens = push_match s.tokens s.pos len dist lo m before inv.tokens;
              place = settled off (match_behind s.tokens s.pos len dist lo m before);
              undeferred = inr off;
            })
        | inr short ↦ rw short (record {
          sound = inv.sound;
          in_range = omega arith;
          tokens = push_literal s.tokens s.pos inv.tokens;
          place = settled off (literal_behind s.tokens s.pos more before);
          undeferred = inr off;
        })
      ]

  pub step_lazy-IsParsed :
      (cfg : LevelConfig) (s : ParseState) (len dist : ℕ)
      → cfg.lazy ≡ true
      → IsParsed input cfg.lazy s
      → s.pos < length input
      → IsFound input s.pos (len, dist)
      → IsParsed input cfg.lazy (step_lazy input cfg s len dist)
  unfolding step_lazy
  step_lazy-IsParsed cfg s len dist lazy inv more found = by_place inv.place
    where
      by_place : IsAt input s → IsParsed input cfg.lazy (step_lazy input cfg s len dist)
      by_place (settled off before) = elim (Bool-cases (leb min_match len)) [
        | inl long ↦
            let lo : 3 ≤ len = omega tests in
            rw (off, long)
              (record {
                sound = inv.sound;
                in_range = omega arith;
                tokens = inv.tokens;
                place = held refl before refl lo (long_match input s.pos (len, dist) found lo);
                undeferred = inl lazy;
              })
        | inr short ↦
            rw (off, short)
              (record {
                sound = inv.sound;
                in_range = omega arith;
                tokens = push_literal s.tokens s.pos inv.tokens;
                place = settled refl (literal_behind s.tokens s.pos more before);
                undeferred = inl lazy;
              })
      ]
      by_place (held on before next lo m) = elim (Bool-cases (ltb s.prev_len len)) [
        | inl better ↦
            let long : 3 ≤ len = omega tests in
            rw (on, better)
              (record {
                sound = inv.sound;
                in_range = omega arith;
                tokens = push_literal s.tokens s.prev_pos inv.tokens;
                place =
                    held refl
                      (literal_behind s.tokens s.prev_pos (omega arith) before
                        ∙ ap (λ (n : ℕ). take n input) (sym next))
                      refl long (long_match input s.pos (len, dist) found long);
                undeferred = inl lazy;
              })
        | inr kept ↦
            rw (on, kept)
              (record {
                sound =
                    insert_run-IsSound input (s.prev_pos + s.prev_len - (s.pos + 1)) (s.pos + 1)
                      s.chains inv.sound;
                in_range = m.inside;
                tokens =
                    push_match s.tokens s.prev_pos s.prev_len s.prev_dist lo m before inv.tokens;
                place =
                    settled refl
                      (match_behind s.tokens s.prev_pos s.prev_len s.prev_dist lo m before);
                undeferred = inl lazy;
              })
      ]
