-- ===== src/Collect/Process/Tree.antt =====
-- The walk of `collect_process` in cc_mqtt_monitor/collect.py over the process tree.
use mathlib.Core.List.Memᴰ
use mathlib.Core.Path.{subst}
use cc_rms_mqtt_monitor.Base.{
  ℕ, zero, suc, ◌+◌, ◌≤◌, ◌≡◌, ◌⊎◌, ◌↔◌, inl, inr, ⊎_elim, refl, true, false, some, List, [], ◌∷◌,
  Memᴰ, arith, Bool-cases, if◌then◌else◌, length, filter, push_all, mem, mem-cons, Distinct,
  Memᴰ-cons, Memᴰ-push_all, length-push_all,
}
use cc_rms_mqtt_monitor.Collect.Process.{Entry, pids_of, children, walk, capture_tree}

-- A process descends from the roots through its parents.
pub data Descends (procs : List Entry) (starts : List ℕ) : ℕ → Type 0 where
  root : {pid : ℕ} → Memᴰ pid starts → Descends procs starts pid
  child :
      {pid parent : ℕ}
      → Descends procs starts parent
      → Memᴰ pid (children procs parent)
      → Descends procs starts pid

-- the processes whose parent is not in the tree yet
unpushed : List ℕ → List Entry → ℕ
unpushed tree [] = 0
unpushed tree (e ∷ es) = (if mem e.ppid tree then 0 else 1) + unpushed tree es

unpushed-nil : (procs : List Entry) → unpushed [] procs ≡ length procs
unfolding unpushed mem
unpushed-nil [] = refl
unpushed-nil (e ∷ es) = omega (arith, unpushed-nil es)

unpushed-cons :
    (pid : ℕ) (tree : List ℕ) (procs : List Entry)
    → mem pid tree ≡ false
    → length (children procs pid) + unpushed (pid ∷ tree) procs ≡ unpushed tree procs
unfolding unpushed mem children filter pids_of
unpushed-cons pid tree [] h = refl
unpushed-cons pid tree (e ∷ es) h = ground (arith, unpushed-cons pid tree es h)

module _ (procs : List Entry) (starts : List ℕ) where
  record Inv (tree stack : List ℕ) : Type 0 where
    distinct : Distinct tree
    sound : (p : ℕ) → mem p tree ≡ true → Descends procs starts p
    waiting : (p : ℕ) → Memᴰ p stack → Descends procs starts p
    started : (p : ℕ) → Memᴰ p starts → (mem p tree ≡ true) ⊎ Memᴰ p stack
    closed :
        (p q : ℕ)
        → mem p tree ≡ true
        → Memᴰ q (children procs p)
        → (mem q tree ≡ true) ⊎ Memᴰ q stack

  Inv-seen :
      (p : ℕ) (tree stack : List ℕ) → mem p tree ≡ true → Inv tree (p ∷ stack) → Inv tree stack
  Inv-seen p tree stack seen h = record {
    distinct = h.distinct;
    sound = h.sound;
    waiting = λ q m. h.waiting q (Memᴰ.tail m);
    started = λ q m. ground (arith, h.started q m, Memᴰ-cons q p stack);
    closed = λ q r t m. ground (arith, h.closed q r t m, Memᴰ-cons r p stack);
  }

  Inv-added :
      (p : ℕ) (tree stack : List ℕ)
      → mem p tree ≡ false
      → Inv tree (p ∷ stack)
      → Inv (p ∷ tree) (push_all (children procs p) stack)
  unfolding mem
  Inv-added p tree stack new h = record {
    distinct = (new, h.distinct);
    sound = λ q t. ground (arith, h.sound q, h.waiting p (Memᴰ.head refl));
    waiting = λ q m. elim ((Memᴰ-push_all q (children procs p) stack).0 m) [
      | inl c ↦ child (h.waiting p (Memᴰ.head refl)) c
      | inr s ↦ h.waiting q (Memᴰ.tail s)
    ];
    started = λ q m.
        ground
          (arith, h.started q m, Memᴰ-cons q p stack, Memᴰ-push_all q (children procs p) stack);
    closed = λ q r t m. elim ((mem-cons q p tree).0 t) [
      | inl same ↦ inr (
          (Memᴰ-push_all r (children procs p) stack).1
            (inl (subst (λ x. Memᴰ r (children procs x)) same m)))
      | inr old ↦ ground (
        arith,
        h.closed q r old m,
        Memᴰ-cons r p stack,
        mem-cons r p tree,
        Memᴰ-push_all r (children procs p) stack,
      )
    ];
  }

  walk_lem :
      (fuel : ℕ) (tree stack : List ℕ)
      → length stack + unpushed tree procs ≤ fuel
      → Inv tree stack
      → (t : List ℕ) × (walk procs fuel tree stack ≡ some t) × Inv t []
  unfolding walk
  walk_lem fuel tree [] enough h = (tree, refl, h)
  walk_lem zero tree (p ∷ stack) enough h = absurd (omega arith)
  walk_lem (suc fuel) tree (p ∷ stack) enough h = elim (Bool-cases (mem p tree)) [
    | inl seen ↦
        rw (walk, seen) (walk_lem fuel tree stack (omega arith) (Inv-seen p tree stack seen h))
    | inr new ↦
        rw (walk, new)
          (walk_lem fuel (p ∷ tree) (push_all (children procs p) stack)
            (omega
              (arith, unpushed-cons p tree procs new, length-push_all (children procs p) stack))
            (Inv-added p tree stack new h))
  ]

  Inv-start : Inv [] (push_all starts [])
  unfolding mem
  Inv-start = record {
    distinct = tt;
    sound = λ p t. cc t;
    waiting = λ p m. root (from_starts p m);
    started = λ p m. inr ((Memᴰ-push_all p starts []).1 (inl m));
    closed = λ p q t m. cc t;
  }
    where
      from_starts : (p : ℕ) → Memᴰ p (push_all starts []) → Memᴰ p starts
      from_starts p m =
          ⊎_elim (λ n. n) (λ n. absurd (Memᴰ.not-nil n)) ((Memᴰ-push_all p starts []).0 m)

  complete : (t : List ℕ) → Inv t [] → {p : ℕ} → Descends procs starts p → mem p t ≡ true
  complete t h (root m) = ⊎_elim (λ k. k) (λ n. absurd (Memᴰ.not-nil n)) (h.started _ m)
  complete t h (child d m) =
      ⊎_elim (λ k. k) (λ n. absurd (Memᴰ.not-nil n)) (h.closed _ _ (complete t h d) m)

-- The walk over the process table always ends with a tree, whatever the table holds, cycles of
-- parents included: it holds each pid once, and exactly those that descend from the roots.
pub capture_tree_exact :
    (procs : List Entry) (starts : List ℕ)
    → (tree : List ℕ) × (capture_tree procs starts ≡ some tree)
      × Distinct tree
      × ((pid : ℕ) → (mem pid tree ≡ true) ↔ Descends procs starts pid)
unfolding capture_tree
capture_tree_exact procs starts =
    let (t, ends, inv) =
      walk_lem procs starts (length starts + length procs) [] (push_all starts [])
        (omega (arith, unpushed-nil procs, length-push_all starts [])) (Inv-start procs starts) in
    (t, ends, inv.distinct, λ pid. (inv.sound pid, complete procs starts t inv))
