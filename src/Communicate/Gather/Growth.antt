-- ===== src/Communicate/Gather/Growth.antt =====
-- `grow_result` of src/communicate.rs (Windows): where the bytes of a chunk go.
use rust_subprocess.Prelude.{
  ℕ, ap, ◌+◌, ◌-◌, ◌≤◌, Bool, true, false, not, [], ◌++◌, Option, none, some, ◌≡◌, ◌≢◌, refl, arith,
  leb, ltb, length, take, drop, Bytes, length-append, length-take, take-append-drop, append-nil,
  append_assoc, Gives, Returns, Bool-cases, ◌⊎◌, inl, inr,
}
use rust_subprocess.Communicate.Raw.{limit_reached}
use rust_subprocess.Communicate.Helpers.{StreamIdent, stream_in, stream_out, stream_err}
use rust_subprocess.Communicate.Helpers.Messages.{out_part, err_part}
use rust_subprocess.Communicate.Gather.{Gather, gathered, grow_result, push_part, clip}

out_part-take-drop :
    (ident : StreamIdent) (n : ℕ) (chunk : Bytes)
    → out_part ident (take n chunk) ++ out_part ident (drop n chunk) ≡ out_part ident chunk
out_part-take-drop stream_in n chunk = refl
out_part-take-drop stream_out n chunk = take-append-drop n chunk
out_part-take-drop stream_err n chunk = refl

err_part-take-drop :
    (ident : StreamIdent) (n : ℕ) (chunk : Bytes)
    → err_part ident (take n chunk) ++ err_part ident (drop n chunk) ≡ err_part ident chunk
err_part-take-drop stream_in n chunk = refl
err_part-take-drop stream_out n chunk = refl
err_part-take-drop stream_err n chunk = take-append-drop n chunk

abbrev pub left_out : Option (StreamIdent × Bytes) → Bytes
left_out none = []
left_out (some (ident, chunk)) = out_part ident chunk

abbrev pub left_err : Option (StreamIdent × Bytes) → Bytes
left_err none = []
left_err (some (ident, chunk)) = err_part ident chunk

-- A leftover is of the stream.
abbrev pub IsOf : StreamIdent → Option (StreamIdent × Bytes) → Type 0
IsOf ident none = Unit
IsOf ident (some (other, chunk)) = other ≡ ident

abbrev pub Within : Option ℕ → ℕ → Type 0
Within none total = Unit
Within (some size_limit) total = total ≤ size_limit

abbrev pub HasRoom : Option ℕ → Gather → Type 0
HasRoom size_limit g = limit_reached size_limit (gathered g) ≡ false

pub record Grown (size_limit : Option ℕ) (ident : StreamIdent) (chunk : Bytes) (g : Gather)
    (more : Bool) (g' : Gather) : Type 0 where
  pub out : g'.outvec ++ left_out g'.comm.leftover ≡ g.outvec ++ out_part ident chunk
  pub errs : g'.errvec ++ left_err g'.comm.leftover ≡ g.errvec ++ err_part ident chunk
  pub same_rx : g'.comm.rx ≡ g.comm.rx
  pub same_set : g'.comm.helper_set ≡ g.comm.helper_set
  pub same_requested : g'.comm.requested_streams ≡ g.comm.requested_streams
  pub of_stream : IsOf ident g'.comm.leftover
  pub within : Within size_limit (gathered g')
  pub goes_on : more ≡ true → (g'.comm.leftover ≡ none) × HasRoom size_limit g'
  pub stops : more ≡ false → HasRoom size_limit g' → ⊥

module _ (size_limit : ℕ) (ident : StreamIdent) (chunk : Bytes) (g : Gather) where
  abbrev rest : ℕ
  rest = size_limit - gathered g

  clip_fits :
      leb size_limit (gathered g) ≡ false
      → ltb rest (length chunk) ≡ false
      → clip (some size_limit) ident chunk g ≡ some (chunk, g)
  unfolding clip
  clip_fits room e = rw (room, e)

  clip_cut :
      leb size_limit (gathered g) ≡ false
      → ltb rest (length chunk) ≡ true
      → clip (some size_limit) ident chunk g
        ≡ some (
          take rest chunk,
          record g { comm = record g.comm { leftover = some (ident, drop rest chunk) } },
        )
  unfolding clip
  clip_cut room e = rw (room, e)

module _ (size_limit : Option ℕ) (ident : StreamIdent) (chunk : Bytes) (g : Gather) where
  -- The part and the state that `clip` hands on.
  record Clipped (part : Bytes) (g' : Gather) : Type 0 where
    outvec_same : g'.outvec ≡ g.outvec
    errvec_same : g'.errvec ≡ g.errvec
    rx_same : g'.comm.rx ≡ g.comm.rx
    set_same : g'.comm.helper_set ≡ g.comm.helper_set
    requested_same : g'.comm.requested_streams ≡ g.comm.requested_streams
    of_stream : IsOf ident g'.comm.leftover
    out_whole : out_part ident part ++ left_out g'.comm.leftover ≡ out_part ident chunk
    err_whole : err_part ident part ++ left_err g'.comm.leftover ≡ err_part ident chunk
    within : Within size_limit (gathered g + length part)
    full : (g'.comm.leftover ≡ none) ⊎ (limit_reached size_limit (gathered g + length part) ≡ true)

  -- What holds of the bytes of the parts suffices.
  grown :
      (part : Bytes) (g' : Gather) (outvec errvec : Bytes)
      → Clipped part g'
      → outvec ++ left_out g'.comm.leftover ≡ g.outvec ++ out_part ident chunk
      → errvec ++ left_err g'.comm.leftover ≡ g.errvec ++ err_part ident chunk
      → length outvec + length errvec ≡ gathered g + length part
      → Grown size_limit ident chunk g
          (not (limit_reached size_limit (length outvec + length errvec)))
          (record g' { outvec = outvec; errvec = errvec })
  grown part g' outvec errvec c out errs total = record {
    out = out;
    errs = errs;
    same_rx = c.rx_same;
    same_set = c.set_same;
    same_requested = c.requested_same;
    of_stream = c.of_stream;
    within = rw total c.within;
    goes_on = λ more. elim c.full [
      | inl free ↦ (free, ground (arith, more))
      | inr full ↦ absurd (ground (arith, more, full, total))
    ];
    stops = λ stop room. ground (arith, stop, room);
  }

abbrev pub GrownAs : Option ℕ → StreamIdent → Bytes → Gather → Bool × Gather → Type 0
GrownAs size_limit ident chunk g t = Grown size_limit ident chunk g t.0 t.1

push_part-Grown :
    (size_limit : Option ℕ) (ident : StreamIdent) (chunk : Bytes) (g : Gather) (part : Bytes)
    (g' : Gather)
    → Clipped size_limit ident chunk g part g'
    → Gives (GrownAs size_limit ident chunk g) (push_part size_limit ident g (some (part, g')))
unfolding push_part
push_part-Grown size_limit stream_in chunk g part g' c = tt
push_part-Grown size_limit stream_out chunk g part g' c =
    grown size_limit stream_out chunk g part g' (g'.outvec ++ part) g'.errvec c
      (rw append_assoc (cc (c.outvec_same, c.out_whole)))
      (rw c.errvec_same (ap (◌++◌ g.errvec) c.err_whole))
      (omega
        (arith, length-append g'.outvec part, ap length c.outvec_same, ap length c.errvec_same))
push_part-Grown size_limit stream_err chunk g part g' c =
    grown size_limit stream_err chunk g part g' g'.outvec (g'.errvec ++ part) c
      (rw c.outvec_same (ap (◌++◌ g.outvec) c.out_whole))
      (rw append_assoc (cc (c.errvec_same, c.err_whole)))
      (omega
        (arith, length-append g'.errvec part, ap length c.outvec_same, ap length c.errvec_same))

pub grow_result-Grown :
    (ident : StreamIdent) (chunk : Bytes) (g : Gather) (size_limit : Option ℕ)
    → g.comm.leftover ≡ none
    → HasRoom size_limit g
    → Gives (GrownAs size_limit ident chunk g) (grow_result size_limit ident chunk g)
unfolding grow_result
grow_result-Grown ident chunk g none free room =
    unfold clip in
    push_part-Grown none ident chunk g chunk g (record {
      outvec_same = refl;
      errvec_same = refl;
      rx_same = refl;
      set_same = refl;
      requested_same = refl;
      of_stream = rw free tt;
      out_whole = rw free (append-nil _);
      err_whole = rw free (append-nil _);
      within = tt;
      full = inl free;
    })
grow_result-Grown ident chunk g (some size_limit) free room =
    elim (Bool-cases (ltb (rest size_limit ident chunk g) (length chunk))) [
      | inl e ↦ rw (clip_cut size_limit ident chunk g room e) (
          push_part-Grown (some size_limit) ident chunk g _ _ (record {
            outvec_same = refl;
            errvec_same = refl;
            rx_same = refl;
            set_same = refl;
            requested_same = refl;
            of_stream = refl;
            out_whole = out_part-take-drop ident (rest size_limit ident chunk g) chunk;
            err_whole = err_part-take-drop ident (rest size_limit ident chunk g) chunk;
            within = ground (arith, room, e, length-take (rest size_limit ident chunk g) chunk);
            full = inr ground (arith, room, e, length-take (rest size_limit ident chunk g) chunk);
          }))
      | inr e ↦ rw (clip_fits size_limit ident chunk g room e) (
          push_part-Grown (some size_limit) ident chunk g chunk g (record {
            outvec_same = refl;
            errvec_same = refl;
            rx_same = refl;
            set_same = refl;
            requested_same = refl;
            of_stream = rw free tt;
            out_whole = rw free (append-nil _);
            err_whole = rw free (append-nil _);
            within = ground (arith, room, e);
            full = inl free;
          }))
    ]

-- A chunk of an output is no panic.
pub grow_result-Returns :
    (ident : StreamIdent) (chunk : Bytes) (g : Gather) (size_limit : Option ℕ)
    → ident ≢ stream_in
    → Returns (grow_result size_limit ident chunk g)
unfolding grow_result
grow_result-Returns ident chunk g size_limit n = pushed ident n (clip size_limit ident chunk g)
  where
    pushed :
        (ident : StreamIdent)
        → ident ≢ stream_in
        → (o : Option (Bytes × Gather)) → Returns (push_part size_limit ident g o)
    pushed ident n none = unfold push_part in tt
    pushed stream_in n (some t) = absurd (n refl)
    pushed stream_out n (some t) = unfold push_part in tt
    pushed stream_err n (some t) = unfold push_part in tt
