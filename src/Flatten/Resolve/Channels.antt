-- ===== src/Flatten/Resolve/Channels.antt =====
-- The dense indices of the flattener and the numbers of channels and of inserts.
use onebeat.Prelude.{
  ℕ, suc, ◌+◌, ◌≡◌, inl, inr, Bool, true, ◌&&◌, List, [], ◌∷◌, Option, none, some, arith, ltb, leb,
  length, All, All-append, Bool-cases, if◌then◌else◌,
}
use onebeat.Prelude.Map.{Key, Map, find}
use onebeat.Ids.{InstrumentId, ClipId, MixerTrackId, EffectId}
use onebeat.Ids.Order.{id_key, id_eq}
use onebeat.Entities.{Instrument, EffectSlot, MixerTrack, Clip}
use onebeat.Flatten.Resolve.{
  number_instruments, is_audio, number_audio, number_slots, number_effects, find_effect_index,
}

-- How many channels of audio clips and how many inserts there are.
abbrev pub audio_count : Map ClipId Clip → ℕ
audio_count [] = 0
audio_count ((id, clip) ∷ rest) =
    let later = audio_count rest in if is_audio clip.source then suc later else later

abbrev pub insert_count : Map MixerTrackId MixerTrack → ℕ
insert_count [] = 0
insert_count ((id, track) ∷ rest) = length track.effects + insert_count rest

abbrev pub is_rack : ℕ → ℕ → Bool
is_rack rack i = ltb i rack

abbrev pub is_audio_channel : ℕ → ℕ → ℕ → Bool
is_audio_channel rack audio i = leb rack i && ltb i (rack + audio)

-- Entries of a map whose values all pass a test.
abbrev pub Values : {K : Type 0} → (ℕ → Bool) → Map K ℕ → Type 0
Values q m = All (λ e. q e.1 ≡ true) m

pub number_instruments-Values :
    (next rack : ℕ) (m : Map InstrumentId Instrument)
    → next + length m ≡ rack
    → Values (is_rack rack) (number_instruments next m)
number_instruments-Values next rack [] h = tt
number_instruments-Values next rack ((id, i) ∷ m) h =
    (ground arith, number_instruments-Values (suc next) rack m (omega arith))

pub number_audio-Values :
    (next rack audio : ℕ) (m : Map ClipId Clip)
    → next + audio_count m ≡ rack + audio
    → leb rack next ≡ true
    → Values (is_audio_channel rack audio) (number_audio next m)
number_audio-Values next rack audio [] h k = tt
number_audio-Values next rack audio ((id, clip) ∷ m) h k =
    elim (Bool-cases (is_audio clip.source)) [
      | inl e ↦ rw e (
        ground (arith, e),
        number_audio-Values (suc next) rack audio m (ground (arith, e)) (ground arith),
      )
      | inr e ↦ rw e (number_audio-Values next rack audio m (ground (arith, e)) k)
    ]

-- Entries of the index of inserts.
abbrev pub Inserts : ℕ → List (MixerTrackId × EffectId × ℕ) → Type 0
Inserts count m = All (λ e. ltb e.2 count ≡ true) m

number_slots-Inserts :
    (track : MixerTrackId) (slots : List EffectSlot) (next count : ℕ)
    → leb (next + length slots) count ≡ true
    → Inserts count (number_slots track slots next)
number_slots-Inserts track [] next count h = tt
number_slots-Inserts track (s ∷ slots) next count h =
    (ground arith, number_slots-Inserts track slots (suc next) count (ground arith))

pub number_effects-Inserts :
    (next count : ℕ) (m : Map MixerTrackId MixerTrack)
    → leb (next + insert_count m) count ≡ true
    → Inserts count (number_effects next m)
number_effects-Inserts next count [] h = tt
number_effects-Inserts next count ((id, track) ∷ m) h =
    All-append (λ e. ltb e.2 count ≡ true) (number_slots id track.effects next)
      (number_effects (next + length track.effects) m)
      (number_slots-Inserts id track.effects next count (ground arith))
      (number_effects-Inserts (next + length track.effects) count m (ground arith))

abbrev pub OnIndex : (ℕ → Bool) → Option ℕ → Type 0
OnIndex q none = Unit
OnIndex q (some i) = q i ≡ true

module _ {K : Type 0} ⦃o : Key K⦄ where
  pub find-OnIndex : (q : ℕ → Bool) (k : K) (m : Map K ℕ) → Values q m → OnIndex q (find k m)
  unfolding find
  find-OnIndex q k [] h = tt
  find-OnIndex q k ((j, i) ∷ m) h = elim (Bool-cases (o.keq j k)) [
    | inl e ↦ rw e h.0
    | inr e ↦ rw e (find-OnIndex q k m h.1)
  ]

pub find_effect_index-OnIndex :
    (track : MixerTrackId) (effect : EffectId) (count : ℕ) (m : List (MixerTrackId × EffectId × ℕ))
    → Inserts count m
    → OnIndex (λ i. ltb i count) (find_effect_index track effect m)
unfolding find_effect_index
find_effect_index-OnIndex track effect count [] h = tt
find_effect_index-OnIndex track effect count ((t, e, i) ∷ m) h =
    elim (Bool-cases (id_eq t track && id_eq e effect)) [
      | inl c ↦ rw c h.0
      | inr c ↦ rw c (find_effect_index-OnIndex track effect count m h.1)
    ]
