-- ===== src/Install/Holds.antt =====
-- What holds of the programs, the programs' binaries, their backups and the journal after each way a
-- program can end: `D` where the process dies, `Q` of the result where it returns.
use sub2api5hlimit.Base.{ℕ, Bool, true, false, Option, List, [], ◌∷◌, ◌≡◌, refl, sym, subst}
use sub2api5hlimit.Store.Model.{Text}
use sub2api5hlimit.Install.Machine.{
  File, TransactionJournal, Machine, Outcome, fine, fails, fails_late, dies, Event, World, Out,
  done, died, bind, Step, ◌>>=◌, return, portal_runs, happen, perform, call, ask, choose, check,
  run_command, answer, printed_first,
}

pub record Core : Type 0 where
  pub portal : Option File
  pub updater : Option File
  pub backups : ℕ → Option Text
  pub journal : Option TransactionJournal

abbrev pub core : Machine → Core
core m = record {
  portal = m.files 0;
  updater = m.files 1;
  backups = m.backups;
  journal = m.journal;
}

abbrev pub here : World → Core
here w = core w.machine

pub data Holds {A : Type 0} (D : Core → Type 0) (Q : A → Core → Type 0) : Out A → Type 0 where
  on_return : {a : A} {w : World} → Q a (here w) → Holds D Q (done a w)
  on_death : {m : Machine} → D (core m) → Holds D Q (died m)

-- A program that keeps every fact about the core.
pub record Keeps {A : Type 0} (m : Step A) : Type 1 where
  pub keeps : (P : Core → Type 0) (w : World) → P (here w) → Holds P (λ (_ : A). P) (m w)

module _ {A B : Type 0} {D : Core → Type 0} {R : A → Core → Type 0} {Q : B → Core → Type 0} where
  pub Holds-bind :
      (o : Out A) (f : A → World → Out B)
      → Holds D R o
      → ((a : A) (w : World) → R a (here w) → Holds D Q (f a w))
      → Holds D Q (bind o f)
  Holds-bind (done a w) f (on_return h) next = next a w h
  Holds-bind (died m) f (on_death h) next = on_death h

module _ {A : Type 0} {D : Core → Type 0} {R : Bool → Core → Type 0} {Q : A → Core → Type 0} where
  pub Holds-check :
      (m : Step Bool) (otherwise next : Step A) (w : World)
      → Holds D R (m w)
      → ((w' : World) → R false (here w') → Holds D Q (otherwise w'))
      → ((w' : World) → R true (here w') → Holds D Q (next w'))
      → Holds D Q (check m otherwise next w)
  Holds-check m otherwise next w h e n = Holds-bind (m w) (λ ok. choose ok otherwise next) h go
    where
      go : (ok : Bool) (w' : World) → R ok (here w') → Holds D Q (choose ok otherwise next w')
      go true w' r = n w' r
      go false w' r = e w' r

pub Holds-map :
    {A : Type 0} {D D' : Core → Type 0} {Q Q' : A → Core → Type 0} (o : Out A)
    → Holds D Q o
    → ((c : Core) → D c → D' c)
    → ((a : A) (c : Core) → Q a c → Q' a c)
    → Holds D' Q' o
Holds-map (done a w) (on_return h) d q = on_return (q a (here w) h)
Holds-map (died m) (on_death h) d q = on_death (d (core m) h)

-- A call whose effect on the core is `g`.
module _ (effect : Machine → Machine) (g : Core → Core)
    (effect_core : (m : Machine) → core (effect m) ≡ g (core m)) (D : Core → Type 0)
    (Q : Bool → Core → Type 0) where
  Holds-happen :
      (o : Outcome) (m : Machine) (events : List Event)
      → Q true (g (core m))
      → Q false (g (core m))
      → Q false (core m)
      → D (core m)
      → Holds D Q (happen o effect m events)
  Holds-happen fine m events t l f d = on_return (subst (Q true) (sym (effect_core m)) t)
  Holds-happen fails m events t l f d = on_return f
  Holds-happen fails_late m events t l f d = on_return (subst (Q false) (sym (effect_core m)) l)
  Holds-happen dies m events t l f d = on_death d

  Holds-perform :
      (events : List Event) (m : Machine)
      → Q true (g (core m))
      → Q false (g (core m))
      → Q false (core m)
      → D (core m)
      → Holds D Q (perform events effect m)
  unfolding perform portal_runs
  Holds-perform [] m t l f d = on_return (subst (Q true) (sym (effect_core m)) t)
  Holds-perform (e ∷ events) m t l f d =
      Holds-happen e.outcome (portal_runs e.portal_writes m) events t l f d

  pub Holds-call :
      (w : World)
      → Q true (g (here w))
      → Q false (g (here w))
      → Q false (here w)
      → D (here w)
      → Holds D Q (call effect w)
  unfolding call
  Holds-call w t l f d = Holds-perform w.events w.machine t l f d

pub call-Keeps :
    (effect : Machine → Machine) → ((m : Machine) → core (effect m) ≡ core m) → Keeps (call effect)
call-Keeps effect h = record { keeps = λ P w p. Holds-call effect (λ c. c) h P (λ _. P) w p p p p }

pub ask-Keeps : Keeps ask
ask-Keeps = call-Keeps (λ m. m) (λ m. refl)

pub return-Keeps : {A : Type 0} (a : A) → Keeps (return a)
return-Keeps a = record { keeps = λ P w p. on_return p }

pub bind-Keeps :
    {A B : Type 0} (m : Step A) (f : A → Step B)
    → Keeps m
    → ((a : A) → Keeps (f a))
    → Keeps (m >>= f)
bind-Keeps m f km kf = record {
  keeps = λ P w p. Holds-bind (m w) f (km.keeps P w p) (λ a w' p'. (kf a).keeps P w' p');
}

pub choose-Keeps :
    {A : Type 0} (b : Bool) (otherwise next : Step A)
    → Keeps otherwise
    → Keeps next
    → Keeps (choose b otherwise next)
choose-Keeps true otherwise next ko kn = kn
choose-Keeps false otherwise next ko kn = ko

pub check-Keeps :
    {A : Type 0} (m : Step Bool) (otherwise next : Step A)
    → Keeps m
    → Keeps otherwise
    → Keeps next
    → Keeps (check m otherwise next)
check-Keeps m otherwise next km ko kn =
    bind-Keeps m (λ ok. choose ok otherwise next) km (λ ok. choose-Keeps ok otherwise next ko kn)

-- What a command prints does not change what it keeps.
pub Holds-answer :
    {P : Core → Type 0} (f : Machine → Text) (text : Text) (o : Out Bool)
    → Holds P (λ _. P) o
    → Holds P (λ _. P) (answer f text o)
Holds-answer f text (done true w) (on_return h) = on_return h
Holds-answer f text (done false w) (on_return h) = on_return h
Holds-answer f text (died m) (on_death h) = on_death h

pub run_command-Keeps : (f : Machine → Text) → Keeps (run_command f)
unfolding run_command
run_command-Keeps f = record {
  keeps = λ P w p. Holds-answer f (printed_first w.events) (ask w) (ask-Keeps.keeps P w p);
}

-- A step that keeps the core, and then what follows.
module _ {A B : Type 0} {D : Core → Type 0} {Q : B → Core → Type 0} (P : Core → Type 0)
    (is_safe : (c : Core) → P c → D c) where
  pub Holds-after :
      (m : Step A) (f : A → Step B) (w : World)
      → Keeps m
      → P (here w)
      → ((a : A) (w' : World) → P (here w') → Holds D Q (f a w'))
      → Holds D Q ((m >>= f) w)
  Holds-after m f w k p next =
      Holds-bind (m w) f (Holds-map (m w) (k.keeps P w p) is_safe (λ _ c p'. p')) next

module _ {A : Type 0} {D : Core → Type 0} {Q : A → Core → Type 0} (P : Core → Type 0)
    (is_safe : (c : Core) → P c → D c) where
  pub Holds-passing :
      (m : Step Bool) (otherwise next : Step A) (w : World)
      → Keeps m
      → P (here w)
      → ((w' : World) → P (here w') → Holds D Q (otherwise w'))
      → ((w' : World) → P (here w') → Holds D Q (next w'))
      → Holds D Q (check m otherwise next w)
  Holds-passing m otherwise next w k p e n =
      Holds-check m otherwise next w
        (Holds-map {Q' = λ _. P} (m w) (k.keeps P w p) is_safe (λ _ c p'. p')) e n
