-- ===== src/Chunker/Follow.antt =====
-- The calls of `chunker_chunk_buffer` of src/theo/chunker.c against the cuts of the bytes.
use theo.Base.{
  ℕ, ◌+◌, ◌-◌, ◌≤◌, ◌≡◌, refl, sym, ap, ◌∙◌, inl, inr, true, Option, none, some, List, ◌∷◌, ◌++◌,
  length, take, drop, ◌==◌, ltb, leb, Bool-cases, drop-append_le, take-append_le, arith,
}
use mathlib.Core.Path.{subst}
use theo.ChunkRef.{Sha256, ChunkRef, chunk_ref_set}
use theo.Chunker.{
  RollingHash, Chunker, Chunked, found, not_found, chunker_mask, chunker_trigger, retain, max_len,
  after_run, chunker_chunk_buffer,
}
use theo.Chunker.Cuts.{
  IsRolling, seed, reach, probe, hit, first_cut, first_cut-le, first_cut-append, Cuts, last, more,
}

module _ {State Setup : Type 0} (rh : RollingHash State) (rolls : IsRolling rh Setup)
    (s : State) where
  -- The chunks of some bytes and then those of what is left with more behind it.
  pub Cuts-append :
      (b r ys r' : List ℕ) (cs cs' : List (List ℕ))
      → Cuts rh s b cs r
      → Cuts rh s (r ++ ys) cs' r'
      → Cuts rh s (b ++ ys) (cs ++ cs') r'
  Cuts-append b _ ys r' _ cs' (last e) rest = rest
  Cuts-append b r ys r' _ cs' (more {cs = cs} n e cuts) rest =
      let inside = first_cut-le rh s b n e in
      let after : Cuts rh s (drop n (b ++ ys)) (cs ++ cs') r' =
        subst (λ t. Cuts rh s t (cs ++ cs') r') (sym (drop-append_le n b ys inside))
          (Cuts-append (drop n b) r ys r' cs cs' cuts rest) in
      subst (λ t. Cuts rh s (b ++ ys) (t ∷ (cs ++ cs')) r') (take-append_le n b ys inside)
        (more n (first_cut-append rh rolls s b ys n e) after)

  -- There is one way to cut.
  pub Cuts-unique :
      (b r r' : List ℕ) (cs cs' : List (List ℕ))
      → Cuts rh s b cs r
      → Cuts rh s b cs' r'
      → (cs ≡ cs') × (r ≡ r')
  Cuts-unique b _ _ _ _ (last e) (last e') = (refl, refl)
  Cuts-unique b _ r' _ _ (last e) (more n e' cuts) = absurd (ground (arith, e, e'))
  Cuts-unique b r _ _ _ (more n e cuts) (last e') = absurd (ground (arith, e, e'))
  Cuts-unique b r r' _ _ (more {cs = cs} n e cuts) (more {cs = cs'} n' e' cuts') =
      let same : n ≡ n' = ground (arith, e, e') in
      let (chunks, rest) =
        Cuts-unique (drop n b) r r' cs cs' cuts
          (subst (λ m. Cuts rh s (drop m b) cs' r') (sym same) cuts') in
      (ap (λ m. take m b ∷ cs) same ∙ ap (λ t. take n' b ∷ t) chunks, rest)

  module _ (sha : Sha256) (buffer : List ℕ) where
    -- What a call returns, and that it leaves the setup of the hash alone.
    pub data CutOutcome : Option (Chunked × Chunker State) → Type 0 where
      cut_at :
          {r : ChunkRef} {c : Chunker State}
          → first_cut rh s buffer ≡ some r.buffer_size
          → r.buffer ≡ take r.buffer_size buffer
          → rolls.setup c.rh_state2 ≡ rolls.setup s
          → CutOutcome (some (found r, c))
      no_cut :
          {c : Chunker State}
          → first_cut rh s buffer ≡ none
          → rolls.setup c.rh_state2 ≡ rolls.setup s
          → CutOutcome (some (not_found, c))
      no_room : CutOutcome none

    retain-CutOutcome :
        (c : Chunker State)
        → first_cut rh s buffer ≡ none
        → rolls.setup c.rh_state2 ≡ rolls.setup s
        → CutOutcome (retain rh c buffer)
    retain-CutOutcome c e same = elim (Bool-cases (leb (length buffer) (length c.retained))) [
      | inl fits ↦ rw fits (no_cut e same)
      | inr long ↦ rw long no_room
    ]

    cut_at-set :
        (c : Chunker State) (n : ℕ)
        → first_cut rh s buffer ≡ some n
        → rolls.setup c.rh_state2 ≡ rolls.setup s
        → CutOutcome (some (found (chunk_ref_set sha buffer n), c))
    unfolding chunk_ref_set
    cut_at-set c n e same = cut_at e refl same

    after_run-CutOutcome :
        (c : Chunker State) (r : Option ℕ × State)
        → 2048 ≤ length buffer
        → hit rh s buffer ≡ r.0
        → rolls.setup r.1 ≡ rolls.setup s
        → CutOutcome (after_run rh sha c buffer r)
    unfolding first_cut
    after_run-CutOutcome c (some offset, s') long at same =
        cut_at-set (record c { rh_state2 = s' }) (2048 + offset) (ground (arith, long, at)) same
    after_run-CutOutcome c (none, s') long at same =
        elim (Bool-cases (max_len rh buffer == 24576 - 2048)) [
          | inl full ↦
              rw full (
                cut_at-set (record c { rh_state2 = s' }) 24576 (ground (arith, long, at, full))
                  same)
          | inr short ↦ rw short (
              retain-CutOutcome (record c { rh_state2 = s' }) (ground (arith, long, at, short))
                same)
        ]

    pub chunker_chunk_buffer-CutOutcome :
        (c : Chunker State)
        → c.retained_size ≡ 0
        → rolls.setup c.rh_state2 ≡ rolls.setup s
        → CutOutcome (chunker_chunk_buffer rh sha c buffer)
    unfolding chunker_chunk_buffer hit seed first_cut
    chunker_chunk_buffer-CutOutcome c empty same =
        let none_kept : (c.retained_size == 0) ≡ true = ground (arith, empty) in
        rw none_kept (elim (Bool-cases (ltb (length buffer) 2048)) [
          | inl short ↦ rw short (retain-CutOutcome c (ground (arith, short)) same)
          | inr long ↦
              let reaches : max_len rh buffer ≡ reach buffer = ground (arith, long) in
              let state = rolls.reset_same c.rh_state2 s (seed buffer) same in
              rw long (
                after_run-CutOutcome c _ (ground (arith, long))
                  (ap (λ m. probe rh s (seed buffer) (take m buffer)) (sym reaches)
                    ∙ ap
                        (λ t.
                          (rh.run t (take (max_len rh buffer) buffer) chunker_mask
                            chunker_trigger).0)
                        (sym state))
                  (rolls.run_keeps _ _ _ _ ∙ rolls.reset_keeps _ _ ∙ same))
        ])
