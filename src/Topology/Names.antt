-- ===== src/Topology/Names.antt =====
-- What a broker does with the declarations of backend/src/shared/queue/topology.js, and which of its
-- names differ. A direct exchange puts a message into the queues that are bound to it under the
-- message's key, and an expired message is published again as the arguments of its queue say.
use hook_tracker.Prelude.{
  ◌≡◌, refl, ◌∙◌, ap, Bool, true, false, ◌&&◌, ◌||◌, List, [], ◌∷◌, ◌++◌, Option, none, some, map,
  codes, find, any, text_eq, text_eq_iff, Bool-cases, inl, inr, is_some, ==_refl, arith,
  if◌then◌else◌,
}
use hook_tracker.Retry.{Level, LevelName, m1, m5, m30, h2, h6, s10}
use hook_tracker.World.{Place, delivery_queue, retry_queue, throttle_queue, dead_letter_queue}
use hook_tracker.Publisher.{level_eq}
use hook_tracker.Topology.{
  Name, level_text, DelayQueue, Topology, retry_queue_of, Declaration, queue, binding,
  delay_declarations,
}

-- Is the queue bound to the exchange under the key?
abbrev pub binds : Name × Name → Name → Declaration → Bool
binds (exchange, key) q (binding q' exchange' key') =
    text_eq exchange' exchange && (text_eq key' key && text_eq q' q)
binds _ q _ = false

abbrev pub routes : List Declaration → Name × Name → Name → Bool
routes ds x q = any (binds x q) ds

-- The exchange and the key of what expires in a queue.
abbrev pub expires_to : List Declaration → Name → Option (Name × Name)
expires_to [] q = none
expires_to (queue q' none ∷ ds) q = expires_to ds q
expires_to (queue q' (some a) ∷ ds) q =
    if text_eq q' q
    then some (a.dead_letter_exchange, a.dead_letter_routing_key)
    else expires_to ds q
expires_to (_ ∷ ds) q = expires_to ds q

-- The queue of a place.
abbrev pub queue_at : Name → Place → Name
queue_at namespace delivery_queue = namespace ++ codes ".delivery"
queue_at namespace (retry_queue level) = namespace ++ (codes ".retry." ++ level_text level)
queue_at namespace throttle_queue = namespace ++ codes ".throttle.10s"
queue_at namespace dead_letter_queue = namespace ++ codes ".dlq"

pub text_eq-append : (n a b : Name) → text_eq (n ++ a) (n ++ b) ≡ text_eq a b
text_eq-append [] a b = refl
text_eq-append (c ∷ n) a b = rw (==_refl c) (text_eq-append n a b)

-- The bindings of the delay queues.
abbrev pub is_bound : Name → Name × Name → Name → DelayQueue → Bool
is_bound retry (exchange, key) q l =
    text_eq retry exchange && (text_eq l.routing_key key && text_eq l.queue q)

pub any-delays :
    (t : Topology) (x : Name × Name) (q : Name) (ls : List DelayQueue)
    → any (binds x q) (delay_declarations t ls) ≡ any (is_bound t.exchanges.retry x q) ls
unfolding delay_declarations
any-delays t x q [] = refl
any-delays t x q (l ∷ ls) = ap (λ b. is_bound t.exchanges.retry x q l || b) (any-delays t x q ls)

pub every_level :
    (P : LevelName → Type 0) → P m1 → P m5 → P m30 → P h2 → P h6 → P s10 → (l : LevelName) → P l
every_level P a b c d e f m1 = a
every_level P a b c d e f m5 = b
every_level P a b c d e f m30 = c
every_level P a b c d e f h2 = d
every_level P a b c d e f h6 = e
every_level P a b c d e f s10 = f

abbrev pub IsTold : LevelName → LevelName → Type 0
IsTold a b = text_eq (level_text a) (level_text b) ≡ level_eq a b

pub text_eq-level_text : (a b : LevelName) → IsTold a b
text_eq-level_text m1 = every_level (IsTold m1) refl refl refl refl refl refl
text_eq-level_text m5 = every_level (IsTold m5) refl refl refl refl refl refl
text_eq-level_text m30 = every_level (IsTold m30) refl refl refl refl refl refl
text_eq-level_text h2 = every_level (IsTold h2) refl refl refl refl refl refl
text_eq-level_text h6 = every_level (IsTold h6) refl refl refl refl refl refl
text_eq-level_text s10 = every_level (IsTold s10) refl refl refl refl refl refl

pub text_eq_refl : (a : Name) → text_eq a a ≡ true
text_eq_refl [] = refl
text_eq_refl (c ∷ a) = rw (==_refl c) (text_eq_refl a)

pub level_eq→text : (a b : LevelName) → level_eq a b ≡ true → level_text a ≡ level_text b
level_eq→text a b h = (text_eq_iff (level_text a) (level_text b)).0 (text_eq-level_text a b ∙ h)

pub absorb : (a b : Bool) → (a || (b && a)) ≡ a
absorb true b = refl
absorb false true = refl
absorb false false = refl

pub or_false : (a : Bool) → (a || false) ≡ a
or_false true = refl
or_false false = refl

pub or_false_or : (a b : Bool) → ((a || (b || false)) || false) ≡ (a || b)
or_false_or true b = refl
or_false_or false true = refl
or_false_or false false = refl

module _ (namespace : Name) (q : Name) where
  pub other_exchange :
      (retry exchange key : Name) (ls : List DelayQueue)
      → text_eq retry exchange ≡ false
      → any (is_bound retry (exchange, key) q) ls ≡ false
  other_exchange retry exchange key [] h = refl
  other_exchange retry exchange key (l ∷ ls) h = rw h (other_exchange retry exchange key ls h)

  pub throttle_key :
      (retry : Name) (s : List Level)
      → any (is_bound retry (retry, codes "throttle.10s") q) (map (retry_queue_of namespace) s)
        ≡ false
  throttle_key retry [] = refl
  throttle_key retry (l ∷ s) = rw (text_eq_refl retry) (throttle_key retry s)

  pub level_any :
      (retry : Name) (level : LevelName) (s : List Level)
      → any
          (is_bound retry (retry, codes "retry." ++ level_text level) q)
          (map (retry_queue_of namespace) s)
        ≡ (is_some (find (λ entry. level_eq entry.level level) (map (retry_queue_of namespace) s))
            && text_eq (queue_at namespace (retry_queue level)) q)
  level_any retry level [] = refl
  level_any retry level (l ∷ s) = elim (Bool-cases (level_eq l.level level)) [
    | inl h ↦
        rw
          (
            h,
            text_eq_refl retry,
            text_eq-level_text l.level level,
            h,
            level_eq→text l.level level h,
            level_any retry level s,
          )
          (absorb _ _)
    | inr h ↦
        rw (h, text_eq_refl retry, text_eq-level_text l.level level, h) (level_any retry level s)
  ]

  pub find-key :
      (level : LevelName) (s : List Level) (target : DelayQueue)
      → find (λ entry. level_eq entry.level level) (map (retry_queue_of namespace) s) ≡ some target
      → target.routing_key ≡ codes "retry." ++ level_text level
  find-key level [] target h = cc
  find-key level (l ∷ s) target h = elim (Bool-cases (level_eq l.level level)) [
    | inl e ↦ ground (arith, level_eq→text l.level level e)
    | inr e ↦ find-key level s target (ground arith)
  ]
