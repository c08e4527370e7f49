-- ===== src/Realtime/Publisher/Steps.antt =====
-- The invariant of the publisher, step by step of each thread.
use onebeat.Prelude.{
  In, ℕ, suc, ◌+◌, ◌^◌, ◌≤◌, ◌<◌, ◌≡◌, refl, sym, subst, ◌∙◌, Bool, true, false, List, [], ◌∷◌,
  ◌++◌, Option, none, some, ◌⊎◌, inl, inr, All, All-append, Bool-cases, arith,
}
use onebeat.Realtime.Publisher.{
  Retired, Audio, outside, inside, Writer, idle, exchanged, stamped, Collector, resting, asked,
  loaded, freeing, System, update, trusts_silence, add_u64, doomed, kept, is_doomed, load,
  after_count, Step, begin_block, acquire, end_block, exchange, exchange_null, count, stamp, retire,
  ask, load_epoch, sweep, free,
}
use onebeat.Realtime.Publisher.Invariant.{
  held, condemned, Superseded, Ageing, Gone, Carried, Loaded, Inv, Evolves, Loaded-evolves,
  Carried-evolves, Waiting-evolves, All_Gone-evolves, update-Carried,
}

-- A step that changes nothing through which an object can be seen.
same :
    {s t : System}
    → s.fresh ≡ t.fresh
    → s.current ≡ t.current
    → s.rt_epoch ≡ t.rt_epoch
    → s.audio ≡ t.audio
    → Evolves s t
same {s} {t} f c e a = record {
  made = omega arith;
  shown = λ p h q. c ∙ q;
  grasped = λ p m. inl (subst (λ x. In p (held x)) (sym a) m);
  ticked = omega arith;
  steady = λ p m. sym e;
}

unmoved : (s : System) → Evolves s s
unmoved s = same refl refl refl refl

-- the loop of `collect` splits the list
All-kept :
    (P : Retired → Type 0) (r : Bool) (e : ℕ) (rs : List Retired) → All P rs → All P (kept r e rs)
unfolding kept
All-kept P r e [] h = tt
All-kept P r e (x ∷ xs) h = elim (Bool-cases (is_doomed r e x)) [
  | inl d ↦ rw d (All-kept P r e xs h.1)
  | inr d ↦ rw d (h.0, All-kept P r e xs h.1)
]

All-doomed :
    (P : Retired → Type 0) (Q : ℕ → Type 0) (r : Bool) (e : ℕ)
    → ((x : Retired) → P x → is_doomed r e x ≡ true → Q x.object)
    → (rs : List Retired) → All P rs
    → All Q (doomed r e rs)
unfolding doomed
All-doomed P Q r e f [] h = tt
All-doomed P Q r e f (x ∷ xs) h = elim (Bool-cases (is_doomed r e x)) [
  | inl d ↦ rw d (f x h.0 d, All-doomed P Q r e f xs h.1)
  | inr d ↦ rw d (All-doomed P Q r e f xs h.1)
]

module _ {s : System} {n : ℕ} (inv : Inv s n) (small : n + 3 < 2 ^ 64) where
  open inv use {epochs, reading, published, writing, waiting, leaving, freed, silent, noted}

  -- The audio thread begins a block, loads the pointer, or ends the block.
  module _ (out : s.audio ≡ outside) (quiet : trusts_silence s.collector ≡ false) where
    abbrev begun : System
    begun = record s { rt_epoch = add_u64 s.rt_epoch 1; audio = inside [] }

    begin-Evolves : Evolves s begun
    begin-Evolves = record {
      made = omega arith;
      shown = λ p h q. q;
      grasped = λ p m. absurd m;
      ticked = omega arith;
      steady = λ p m. absurd m;
    }

    begin-Inv : Inv begun (suc n)
    begin-Inv = record {
      epochs = omega arith;
      reading = λ p m. absurd m;
      published = published;
      writing = λ i. Carried-evolves begin-Evolves (s.writers i) (writing i);
      waiting = Waiting-evolves begin-Evolves s.retired waiting;
      leaving = All_Gone-evolves begin-Evolves (condemned s.collector) leaving;
      freed = All_Gone-evolves begin-Evolves s.deleted freed;
      silent = λ q. absurd (cc);
      noted = Loaded-evolves begin-Evolves s.collector noted;
    }

  module _ (audio : Audio)
      (sub : (p : ℕ) → In p (held audio) → In p (held s.audio) ⊎ (s.current ≡ some p))
      (asleep : trusts_silence s.collector ≡ true → audio ≡ outside) where
    abbrev heard : System
    heard = record s { audio = audio }

    audio-Evolves : Evolves s heard
    audio-Evolves = record {
      made = omega arith;
      shown = λ p h q. q;
      grasped = sub;
      ticked = omega arith;
      steady = λ p m. refl;
    }

    audio-Inv : Inv heard (suc n)
    audio-Inv = record {
      epochs = omega arith;
      reading = λ p m. elim (sub p m) [ inl old ↦ reading p old | inr new ↦ published p new ];
      published = published;
      writing = λ i. Carried-evolves audio-Evolves (s.writers i) (writing i);
      waiting = Waiting-evolves audio-Evolves s.retired waiting;
      leaving = All_Gone-evolves audio-Evolves (condemned s.collector) leaving;
      freed = All_Gone-evolves audio-Evolves s.deleted freed;
      silent = asleep;
      noted = noted;
    }

  acquired :
      (current : Option ℕ) (ps : List ℕ) (p : ℕ)
      → In p (load current ps)
      → In p ps ⊎ (current ≡ some p)
  acquired none ps p m = inl m
  acquired (some q) ps p m = elim m [ inl e ↦ inr (rw e refl) | inr old ↦ inl old ]

  acquire-Inv :
      {ps : List ℕ}
      → s.audio ≡ inside ps
      → Inv (record s { audio = inside (load s.current ps) }) (suc n)
  acquire-Inv {ps} e =
      audio-Inv (inside (load s.current ps)) (λ p m. rw e (acquired s.current ps p m))
        (λ q. absurd (ground (arith, silent q, e)))

  -- A writer replaces the pointer; what was there is its own from now on.
  module _ (next : Option ℕ) (fresh : ℕ) (i : ℕ) (grows : s.fresh ≤ fresh)
      (new : (p : ℕ) → next ≡ some p → (s.fresh ≤ p) × (p < fresh)) where
    abbrev swapped : System
    swapped = record s {
      current = next;
      fresh = fresh;
      writers = update s.writers i (exchanged s.current);
    }

    swap-Evolves : Evolves s swapped
    swap-Evolves = record {
      made = grows;
      shown = λ p h q. absurd (omega (arith, new p q));
      grasped = λ p m. inl m;
      ticked = omega arith;
      steady = λ p m. refl;
    }

    replaced :
        (old : Option ℕ) → ((p : ℕ) → old ≡ some p → p < s.fresh) → Carried swapped (exchanged old)
    replaced none h = tt
    replaced (some p) h = let l = h p refl in (omega (arith, grows), λ q. omega (arith, new p q))

    swap-Inv : Inv swapped (suc n)
    swap-Inv = record {
      epochs = omega arith;
      reading = λ p m. omega (arith, reading p m, grows);
      published = λ p q. (new p q).1;
      writing =
          update-Carried swap-Evolves i (exchanged s.current) writing
            (replaced s.current published);
      waiting = Waiting-evolves swap-Evolves s.retired waiting;
      leaving = All_Gone-evolves swap-Evolves (condemned s.collector) leaving;
      freed = All_Gone-evolves swap-Evolves s.deleted freed;
      silent = silent;
      noted = noted;
    }

  -- A writer moves on; it may hand its object over to the list.
  writer-Inv :
      (i : ℕ) (w : Writer) (generation : ℕ) (retired : List Retired)
      → Carried s w
      → All (λ r. Ageing s r.object r.epoch) retired
      → Inv
          (record s { generation = generation; retired = retired; writers = update s.writers i w })
          (suc n)
  writer-Inv i w generation retired c h = record {
    epochs = omega arith;
    reading = reading;
    published = published;
    writing = update-Carried (unmoved s) i w writing c;
    waiting = h;
    leaving = leaving;
    freed = freed;
    silent = silent;
    noted = noted;
  }

  counted_next :
      (previous : Option ℕ) → Carried s (exchanged previous) → Carried s (after_count previous)
  counted_next none h = tt
  counted_next (some p) h = h

  -- The collector moves on.
  collector-Inv :
      (c : Collector) (retired : List Retired) (deleted : List ℕ)
      → All (λ r. Ageing s r.object r.epoch) retired
      → All (Gone s) (condemned c)
      → All (Gone s) deleted
      → (trusts_silence c ≡ true → s.audio ≡ outside)
      → Loaded s c
      → Inv (record s { retired = retired; deleted = deleted; collector = c }) (suc n)
  collector-Inv c retired deleted a b d e f = record {
    epochs = omega arith;
    reading = reading;
    published = published;
    writing = writing;
    waiting = a;
    leaving = b;
    freed = d;
    silent = e;
    noted = f;
  }

  -- what the loop of `collect` takes is no longer held
  doomed-Gone :
      (rt_running : Bool) (epoch : ℕ)
      → epoch ≤ s.rt_epoch
      → (rt_running ≡ false → s.audio ≡ outside)
      → (x : Retired) → Ageing s x.object x.epoch
      → is_doomed rt_running epoch x ≡ true
      → Gone s x.object
  doomed-Gone false epoch h out x a d = (a.0, a.1, λ m. rw (out refl) at m)
  doomed-Gone true epoch h out x a d = (a.0, a.1, λ m. ground (arith, a.3 m, a.2))

  sweep-Inv :
      {rt_running : Bool} {epoch : ℕ}
      → s.collector ≡ loaded rt_running epoch
      → Inv
          (record s {
            retired = kept rt_running epoch s.retired;
            collector = freeing (doomed rt_running epoch s.retired);
          })
          (suc n)
  sweep-Inv {rt_running} {epoch} e =
      collector-Inv (freeing (doomed rt_running epoch s.retired)) (kept rt_running epoch s.retired)
        s.deleted (All-kept _ rt_running epoch s.retired waiting)
        (All-doomed _ (Gone s) rt_running epoch
          (doomed-Gone rt_running epoch (subst (Loaded s) e noted) (λ f. silent (rw (e, f) refl)))
          s.retired waiting)
        freed (λ q. absurd (cc)) tt

pub Step-Inv : {s t : System} {n : ℕ} → Step true s t → Inv s n → n + 3 < 2 ^ 64 → Inv t (suc n)
Step-Inv (begin_block out quiet) inv h = begin-Inv inv h out (quiet refl)
Step-Inv (acquire e) inv h = acquire-Inv inv h e
Step-Inv (end_block e) inv h = audio-Inv inv h outside (λ p m. absurd m) (λ q. refl)
Step-Inv {s} (exchange i e) inv h =
    swap-Inv inv h (some s.fresh) (suc s.fresh) i (omega arith) (λ p q. ground arith)
Step-Inv {s} (exchange_null i e) inv h =
    swap-Inv inv h none s.fresh i (omega arith) (λ p q. absurd (cc))
Step-Inv {s} (count i {previous} e) inv h =
    writer-Inv inv h i (after_count previous) (add_u64 s.generation 1) s.retired
      (counted_next inv h previous (subst (Carried s) e (inv.writing i))) inv.waiting
Step-Inv {s} (stamp i {p} e) inv h =
    let c : Superseded s p = subst (Carried s) e (inv.writing i) in
    writer-Inv inv h i (stamped p s.rt_epoch) s.generation s.retired
      (c.0, c.1, omega arith, λ m. omega arith) inv.waiting
Step-Inv {s} (retire i {p} {e} q) inv h =
    let c : Ageing s p e = subst (Carried s) q (inv.writing i) in
    writer-Inv inv h i idle s.generation (s.retired ++ record { object = p; epoch = e } ∷ []) tt
      (All-append (λ r. Ageing s r.object r.epoch) s.retired _ inv.waiting (c, tt))
Step-Inv {s} (ask false e out) inv h =
    collector-Inv inv h (asked false) s.retired s.deleted inv.waiting tt inv.freed (λ q. out refl)
      tt
Step-Inv {s} (ask true e out) inv h =
    collector-Inv inv h (asked true) s.retired s.deleted inv.waiting tt inv.freed (λ q. absurd (cc))
      tt
Step-Inv {s} (load_epoch {rt_running} e) inv h =
    collector-Inv inv h (loaded rt_running s.rt_epoch) s.retired s.deleted inv.waiting tt inv.freed
      (still rt_running e) (omega arith)
  where
    still :
        (r : Bool)
        → s.collector ≡ asked r
        → trusts_silence (loaded r s.rt_epoch) ≡ true
        → s.audio ≡ outside
    still false e q = inv.silent (rw e refl)
    still true e q = absurd (cc)
Step-Inv (sweep e) inv h = sweep-Inv inv h e
Step-Inv {s} (free {objects} e) inv h =
    collector-Inv inv h resting s.retired (objects ++ s.deleted) inv.waiting tt
      (All-append (Gone s) objects s.deleted (subst (λ c. All (Gone s) (condemned c)) e inv.leaving)
        inv.freed)
      (λ q. absurd (cc)) tt
