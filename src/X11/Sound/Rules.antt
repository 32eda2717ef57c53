-- ===== src/X11/Sound/Rules.antt =====
-- One rule for each way to build an action, over the invariant.
use clipbus.Base.{
  ℕ, ◌≡◌, refl, List, [], ◌∷◌, Option, none, some, Bool, true, false, String, Result, ok, err,
  Option-cases, inl, inr, Entries-insert, Entries-remove, Entries-lookup, lookup, if◌then◌else◌,
}
use clipbus.Text.{Text}
use clipbus.Clipboard.{Callbacks}
use clipbus.Trace.{Act, Trace}
use clipbus.X11.State.{X11State, PendingRequest}
use clipbus.X11.Server.{World, Reply}
use clipbus.X11.Monad.{
  M, pure, throw, lift, gets, ◌>>=◌, map_err, catch, record_acts, insert_pending, remove_pending,
  set_published, set_pending, send, submit, attempt, ask, now,
}
use clipbus.X11.Connection.{notify}
use clipbus.X11.Sound.Invariant.{IsSound, SoundWith, Good, Issued, Fits, AllActs, Sound}

module _ ⦃w : World⦄ where
  -- m keeps the state sound, and K true of the counter, whether it returns or fails
  pub record Keeps {E A : Type 0} (K : ℕ → Type 0) (m : M E A) : Type 0 where
    pub at : (s : X11State) → SoundWith K s → SoundWith K (m s).1

  -- an act more
  IsSound-act :
      (a : Act) (s : X11State) → Fits a → IsSound s → IsSound (record s { trace = a ∷ s.trace })
  IsSound-act a s f h = record {
    next_pos = h.next_pos;
    next_le = h.next_le;
    entries = h.entries;
    acts = (f, h.acts);
  }

  module _ {K : ℕ → Type 0} where
    pub Keeps-pure : {E A : Type 0} (a : A) → Keeps K (pure {E = E} a)
    unfolding pure
    Keeps-pure a = record { at = λ s h. h }

    pub Keeps-throw : {E A : Type 0} (e : E) → Keeps K (throw {A = A} e)
    unfolding throw
    Keeps-throw e = record { at = λ s h. h }

    pub Keeps-lift : {E A : Type 0} (r : Result E A) → Keeps K (lift r)
    unfolding lift
    Keeps-lift r = record { at = λ s h. h }

    pub Keeps-gets : {E A : Type 0} (f : X11State → A) → Keeps K (gets {E = E} f)
    unfolding gets
    Keeps-gets f = record { at = λ s h. h }

    pub Keeps-if :
        {E A : Type 0} (b : Bool) (m n : M E A)
        → (b ≡ true → Keeps K m)
        → (b ≡ false → Keeps K n)
        → Keeps K (if b then m else n)
    Keeps-if true m n km kn = km refl
    Keeps-if false m n km kn = kn refl

    Keeps-continue :
        {E A B : Type 0} (r : Result E A) (f : A → M E B)
        → ((a : A) → Keeps K (f a))
        → Keeps K (lift r >>= f)
    unfolding ◌>>=◌
    Keeps-continue (ok a) f kf = kf a
    Keeps-continue (err e) f kf = record { at = λ s h. h }

    pub Keeps-bind :
        {E A B : Type 0} (m : M E A) (f : A → M E B)
        → Keeps K m
        → ((a : A) → Keeps K (f a))
        → Keeps K (m >>= f)
    unfolding ◌>>=◌
    Keeps-bind m f km kf = record {
      at = λ s h. let (r, s') = m s in (Keeps-continue r f kf).at s' (km.at s h);
    }

    pub Keeps-map_err : {E F A : Type 0} (f : E → F) (m : M E A) → Keeps K m → Keeps K (map_err f m)
    unfolding map_err
    Keeps-map_err f m k = record { at = k.at }

    pub Keeps-catch : {E F A : Type 0} (m : M E A) → Keeps K m → Keeps K (catch {F = F} m)
    unfolding catch
    Keeps-catch m k = record { at = k.at }

    pub Keeps-send : (a : Act) → Fits a → Keeps K (send a)
    unfolding send
    Keeps-send a f = record { at = λ s h. (IsSound-act a s f h.0, h.1) }

    pub Keeps-submit : (c : String) (a : Act) → Fits a → Keeps K (submit c a)
    unfolding submit
    Keeps-submit c a f = record { at = λ s h. (IsSound-act a s f h.0, h.1) }

    pub Keeps-attempt : (a : Act) → Fits a → Keeps K (attempt a)
    unfolding attempt
    Keeps-attempt a f = record { at = λ s h. (IsSound-act a s f h.0, h.1) }

    pub Keeps-ask :
        {A : Type 0} (c d : Text) (a : Act) (reply : Trace → Reply A)
        → Fits a
        → Keeps K (ask c d a reply)
    unfolding ask
    Keeps-ask c d a reply f = record { at = λ s h. (IsSound-act a s f h.0, h.1) }

    pub Keeps-now : {E : Type 0} → Keeps K (now {E = E})
    unfolding now
    Keeps-now = record { at = λ s h. (IsSound-act Act.read_clock s tt h.0, h.1) }

    pub Keeps-record_acts :
        {E : Type 0} (acts : List Act) → AllActs Fits acts → Keeps K (record_acts {E = E} acts)
    unfolding record_acts
    Keeps-record_acts [] f = record { at = λ s h. h }
    Keeps-record_acts (a ∷ acts) f = record {
      at = λ s h. (Keeps-record_acts acts f.1).at _ (IsSound-act a s f.0 h.0, h.1);
    }

    pub Keeps-notify :
        {E : Type 0} (calls : Callbacks → List Act)
        → ((cb : Callbacks) → AllActs Fits (calls cb))
        → Keeps K (notify {E = E} calls)
    unfolding notify
    Keeps-notify calls f = record {
      at = λ s h. (Keeps-record_acts (calls s.callbacks) (f s.callbacks)).at s h;
    }

    pub Keeps-set_published : {E : Type 0} (f : _) → Keeps K (set_published {E = E} f)
    unfolding set_published
    Keeps-set_published f = record {
      at = λ s h. (
        record {
          next_pos = h.0.next_pos;
          next_le = h.0.next_le;
          entries = h.0.entries;
          acts = h.0.acts;
        },
        h.1,
      );
    }

    pub Keeps-clear_pending : {E : Type 0} → Keeps K (set_pending {E = E} (λ _. []))
    unfolding set_pending
    Keeps-clear_pending = record {
      at = λ s h. (
        record { next_pos = h.0.next_pos; next_le = h.0.next_le; entries = tt; acts = h.0.acts },
        h.1,
      );
    }

    pub Keeps-remove_pending : {E : Type 0} (id : ℕ) → Keeps K (remove_pending {E = E} id)
    unfolding remove_pending
    Keeps-remove_pending id = record {
      at = λ s h. (
        record {
          next_pos = h.0.next_pos;
          next_le = h.0.next_le;
          entries = Entries-remove (Good s.next_request_id) id s.pending h.0.entries;
          acts = h.0.acts;
        },
        h.1,
      );
    }

  -- a request comes in under an id that was given out
  pub Keeps-insert_pending :
      {E : Type 0} (id : ℕ) (p : PendingRequest)
      → Sound p
      → Keeps (λ next. Issued next id) (insert_pending {E = E} id p)
  unfolding insert_pending
  Keeps-insert_pending id p sound = record {
    at = λ s h. (
      record {
        next_pos = h.0.next_pos;
        next_le = h.0.next_le;
        entries = Entries-insert (Good s.next_request_id) id p s.pending (h.1, sound) h.0.entries;
        acts = h.0.acts;
      },
      h.1,
    );
  }

  -- let Some(variant) = remove(id) else ..: what is taken out under an id was sound, and the id had
  -- been given out.
  pub Keeps-take :
      {E A R : Type 0} (id : ℕ) (as_variant : Option PendingRequest → Option R) (n : M E A)
      (f : R → M E A) (G : R → Type 0)
      → as_variant none ≡ none
      → ((p : PendingRequest) (r : R) → as_variant (some p) ≡ some r → Sound p → G r)
      → Keeps (λ next. Unit {0}) n
      → ((r : R) → G r → Keeps (λ next. Issued next id) (f r))
      → Keeps
          (λ next. Unit {0})
          (remove_pending id >>= λ o. elim (as_variant o) [ none ↦ n | some r ↦ f r ])
  unfolding ◌>>=◌ remove_pending
  Keeps-take {E} id as_variant n f G of_none of_some missing found = record {
    at = λ s h.
        let h' = (Keeps-remove_pending {K = λ next. Unit {0}} {E = E} id).at s h in
        elim (Option-cases (lookup id s.pending)) [
          | inl e ↦ rw (e, of_none) (missing.at _ h')
          | inr (p, e) ↦
              let good = Entries-lookup (Good s.next_request_id) id p s.pending h.0.entries e in
              elim (Option-cases (as_variant (some p))) [
                | inl d ↦ rw (e, d) (missing.at _ h')
                | inr (r, d) ↦
                    rw (e, d)
                      (let k = (found r (of_some p r d good.1)).at _ (h'.0, good.0) in (k.0, tt))
              ]
        ];
  }

  -- remove(id), whatever its variant
  pub Keeps-take_any :
      {E A : Type 0} (id : ℕ) (f : Option PendingRequest → M E A)
      → Keeps (λ next. Unit {0}) (f none)
      → ((p : PendingRequest) → Keeps (λ next. Issued next id) (f (some p)))
      → Keeps (λ next. Unit {0}) (remove_pending id >>= f)
  unfolding ◌>>=◌ remove_pending
  Keeps-take_any {E} id f missing found = record {
    at = λ s h.
        let h' = (Keeps-remove_pending {K = λ next. Unit {0}} {E = E} id).at s h in
        elim (Option-cases (lookup id s.pending)) [
          | inl e ↦ rw e (missing.at _ h')
          | inr (p, e) ↦
              let good = Entries-lookup (Good s.next_request_id) id p s.pending h.0.entries e in
              rw e (let k = (found p).at _ (h'.0, good.0) in (k.0, tt))
        ];
  }

pub ruleset keeps_rules = (
  Keeps-pure, Keeps-throw, Keeps-lift, Keeps-gets, Keeps-if, Keeps-bind, Keeps-map_err, Keeps-catch,
  Keeps-submit, Keeps-send, Keeps-attempt, Keeps-ask, Keeps-now, Keeps-notify, Keeps-set_published,
  Keeps-remove_pending, Keeps-insert_pending,
)
