-- ===== src/Interleaving.antt =====
-- Many workers over one world, their moves interleaved in any order: the frame for the handlers of
-- lambdas, of which the cloud runs many calls at the same time.
use ledgerflow_payment_recon.Prelude.{
  ℕ, ◌≡◌, refl, List, [], ◌∷◌, ◌⊎◌, inl, inr, nat_eq, arith, Bool-cases, if◌then◌else◌,
}

abbrev pub In : {A : Type 0} → A → List A → Type 0
In a [] = ⊥
In a (x ∷ xs) = (a ≡ x) ⊎ In a xs

-- What is in the one list is in the other.
abbrev pub Grows : {A : Type 0} → List A → List A → Type 0
Grows {A} a b = (x : A) → In x a → In x b

abbrev pub assign : {A : Type 0} → (ℕ → A) → ℕ → A → ℕ → A
assign f i a j = if nat_eq i j then a else f j

pub record State (World Worker : Type 0) : Type 0 where
  pub world : World
  pub workers : ℕ → Worker

-- An invariant of the world and of each worker, beside a history `g` of the run.
pub record Holds {World Worker G : Type 0} (Good : G → World → Type 0)
    (Ok : G → World → Worker → Type 0) (g : G) (s : State World Worker) : Type 0 where
  pub good : Good g s.world
  pub all_ok : (i : ℕ) → Ok g s.world (s.workers i)

module _ (World Worker : Type 0) (Move : World → Worker → World → Worker → Type 0) where
  pub data Pick (s : State World Worker) : State World Worker → Type 0 where
    pick :
        (i : ℕ) {w : World} {p : Worker}
        → Move s.world (s.workers i) w p
        → Pick s (record { world = w; workers = assign s.workers i p })

  pub data Runs (s : State World Worker) : State World Worker → Type 0 where
    here : Runs s s
    next : {t u : State World Worker} → Runs s t → Pick t u → Runs s u

  -- The moves of one worker, one after the other.
  pub data Moves : World → Worker → World → Worker → Type 0 where
    done : {w : World} {p : Worker} → Moves w p w p
    more : {w v u : World} {p q r : Worker} → Move w p v q → Moves v q u r → Moves w p u r

  pub Moves-append :
      {w v u : World} {p q r : Worker} → Moves w p v q → Moves v q u r → Moves w p u r
  Moves-append done rest = rest
  Moves-append (more move moves) rest = more move (Moves-append moves rest)

  -- The moves of one worker that no other worker disturbs are a run.
  pub Moves-Runs :
      (i : ℕ) {w : World} {p : Worker} {u : World} {r : Worker}
      → Moves w p u r
      → (s t : State World Worker) → Runs s t
      → t.world ≡ w
      → t.workers i ≡ p
      → (v : State World Worker) × Runs s v × (v.world ≡ u) × (v.workers i ≡ r)
  Moves-Runs i done s t runs at_world at_worker = (t, runs, at_world, at_worker)
  Moves-Runs i (more {w} {v} {u} {p} {q} {r} move rest) s t runs at_world at_worker =
      let moved : Move t.world (t.workers i) v q = rw (at_world, at_worker) move in
      Moves-Runs i rest s (record { world = v; workers = assign t.workers i q })
        (next runs (pick i moved)) refl (ground arith)

  -- A move keeps the world's part and its worker's own, and what it does to the world keeps the part of
  -- every other worker.
  module _ (G : Type 0) (Good : G → World → Type 0) (Ok : G → World → Worker → Type 0)
      (After : G → World → G → World → Type 0) (after_refl : (g : G) (w : World) → After g w g w)
      (after_trans : (g h k : G) (w v u : World) → After g w h v → After h v k u → After g w k u)
      (mono : (g h : G) (w v : World) (p : Worker) → After g w h v → Ok g w p → Ok h v p)
      (move_keeps : (g : G) (w v : World) (p q : Worker)
        → Move w p v q
        → Good g w
        → Ok g w p
        → (h : G) × After g w h v × Good h v × Ok h v q) where
    Pick-Holds :
        (g : G) {s t : State World Worker}
        → Pick s t
        → Holds Good Ok g s
        → (h : G) × After g s.world h t.world × Holds Good Ok h t
    Pick-Holds g {s} (pick i {w} {p} move) c =
        let (h, after, good, moved) =
          move_keeps g s.world w (s.workers i) p move c.good (c.all_ok i) in
        (h, after, record { good = good; all_ok = others h after moved })
      where
        others :
            (h : G) → After g s.world h w → Ok h w p → (j : ℕ) → Ok h w (assign s.workers i p j)
        others h after moved j = elim (Bool-cases (nat_eq i j)) [
          | inl e ↦ rw e moved
          | inr e ↦ rw e (mono g h s.world w (s.workers j) after (c.all_ok j))
        ]

    pub Runs-Holds :
        (g : G) {s t : State World Worker}
        → Runs s t
        → Holds Good Ok g s
        → (h : G) × After g s.world h t.world × Holds Good Ok h t
    Runs-Holds g {s} here c = (g, after_refl g s.world, c)
    Runs-Holds g {s} (next {t} {u} runs last) c =
        let (h, first, mid) = Runs-Holds g runs c in
        let (k, second, final) = Pick-Holds h last mid in
        (k, after_trans g h k s.world t.world u.world first second, final)
