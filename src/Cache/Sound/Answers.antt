-- ===== src/Cache/Sound/Answers.antt =====
-- crates/krit-cache/src/store.rs: `Cache::write` always answers and keeps the invariant, and what it
-- accepts is read back until its deadline.
use krit.Base.{◌≤◌, inl, inr, ◌∙◌, ℕ, ◌+◌, ◌≡◌, ◌<◌, refl, Option, some, arith, Option-cases, inl}
use krit.Base.Int.{ℤ}
use krit.Cache.Map.{lookup}
use krit.Cache.Text.{Text, text_key, number_key, deadline_key}
use krit.Cache.Config.{
  CacheError, CacheResult, ok, word, NamespacePolicy, err, not_configured, Result-cases,
}
use krit.Cache.Namespace.{Namespace, charge, sweep_expired}
use krit.Cache.State.{Cache, Answer, Writer, next_stamp, replaced}
use krit.Cache.Write.{swept, store, admit, continue_answer, make_room, write}
use krit.Cache.Sound.{Sound, Holds-later}
use krit.Cache.Sound.Room.{Room, Fits, make_room-Outcome}
use krit.Cache.Sound.Reading.{next_stamp-At, replaced-Room}
use krit.Cache.Sound.Writing.{Kept, swept-At, store-Sound, store-Kept}

-- The key and the value were let through, with this deadline.
pub record Admitted (name key value : Text) (ttl_seconds : ℤ) (now_millis : ℕ) (writer : Writer)
    (before left : Cache) : Type 0 where
  pub ns : Namespace
  pub found : lookup name before.namespaces ≡ some ns
  pub deadline : ℕ
  pub admitted : admit ns.policy key value ttl_seconds now_millis writer ≡ ok deadline
  pub kept : Kept ns.policy name key value deadline left

-- What a write answers, and what it leaves.
pub record Written (name key value : Text) (ttl_seconds : ℤ) (now_millis : ℕ) (writer : Writer)
    (before : Cache) (answer : Option Answer) : Type 0 where
  pub result : CacheResult (Unit {0})
  pub left : Cache
  pub answered : answer ≡ some (result, left)
  pub sound : Sound left
  pub accepted : result ≡ ok tt → Admitted name key value ttl_seconds now_millis writer before left

restamped :
    (latest stamp stamp' : ℕ) (p p' : NamespacePolicy) (name key : Text) (c : Cache)
    → c.stamp ≡ stamp'
    → p ≡ p'
    → Room latest stamp p name key c
    → Room latest stamp' p' name key c
restamped latest stamp stamp' p p' name key c at same room = record {
  holds = room.holds;
  ns = room.ns;
  found = room.found;
  absent = room.absent;
  governed = room.governed ∙ same;
  stamped = at;
}

module _ (name key value : Text) (ttl_seconds : ℤ) (now_millis : ℕ) (writer : Writer)
    (before : Cache) where
  abbrev Answers : Option Answer → Type 0
  Answers = Written name key value ttl_seconds now_millis writer before

  refused : (e : CacheError) (c : Cache) → Sound c → Answers (some (err e, c))
  refused e c sound = record {
    result = err e;
    left = c;
    answered = refl;
    sound = sound;
    accepted = λ h. absurd cc;
  }

  abbrev c : Cache
  c = next_stamp before

  -- The state in which the eviction loop starts.
  pub entry-Room :
      (sound : Sound before)
      → before.stamp + 1 < word
      → (ns : Namespace) → lookup name before.namespaces ≡ some ns
      → Room before.stamp c.stamp ns.policy name key
          (replaced name key (swept name now_millis ns c))
        × ((replaced name key (swept name now_millis ns c)).total_entries ≤ before.total_entries)
  unfolding next_stamp
  entry-Room sound room ns found =
      let (at_swept, fewer, there, same, governed) =
        swept-At name now_millis ns c before.stamp (next_stamp-At before sound room).1 found in
      let (here, fewer') =
        replaced-Room name key (sweep_expired now_millis ns).left before.stamp
          (swept name now_millis ns c) at_swept there in
      (
        restamped before.stamp (swept name now_millis ns c).stamp c.stamp
            (sweep_expired now_millis ns).left.policy ns.policy name key
            (replaced name key (swept name now_millis ns c)) (here.stamped ∙ same) governed here,
        omega (arith, fewer, fewer'),
      )

  -- The end of the write, after the eviction loop.
  module _ (sound : Sound before) (room : before.stamp + 1 < word) (ns : Namespace)
      (found : lookup name before.namespaces ≡ some ns) (deadline : ℕ)
      (admitted : admit ns.policy key value ttl_seconds now_millis writer ≡ ok deadline) where
    finish :
        (result : CacheResult (Unit {0})) (left : Cache)
        → Room before.stamp c.stamp ns.policy name key left
        → (result ≡ ok tt → Fits before.stamp c.stamp ns.policy name key (charge key value) left)
        → Answers (
            continue_answer
              (some (result, left))
              (store name key value deadline (charge key value)))
    finish (err e) left here fits = refused e left (
        Holds-later left before.stamp left.stamp
          (omega (arith, here.stamped, next_stamp-At before sound room)) here.holds)
    finish (ok _) left here fits =
        let moved = (next_stamp-At before sound room).0 in
        let above : before.stamp < left.stamp = omega (arith, here.stamped, moved) in
        let there =
          restamped before.stamp c.stamp left.stamp ns.policy ns.policy name key left refl refl
            here in
        record {
          result = (store name key value deadline (charge key value) left).0;
          left = (store name key value deadline (charge key value) left).1;
          answered = refl;
          sound =
              store-Sound ns.policy name key value deadline before.stamp left above there
                (fits refl);
          accepted = λ h. record {
            ns = ns;
            found = found;
            deadline = deadline;
            admitted = admitted;
            kept =
                store-Kept ns.policy name key value deadline before.stamp left above there
                  (fits refl);
          };
        }

    -- A write that is let through, in a state in which every stamp is older than the counter.
    admitted-Answers :
        (fuel : ℕ)
        → before.total_entries < fuel
        → Answers (
            continue_answer
              (make_room fuel name
                (charge key value)
                (replaced name key (swept name now_millis ns c)))
              (store name key value deadline (charge key value)))
    admitted-Answers fuel enough =
        let (here, fewer) = entry-Room sound room ns found in
        let loop =
          make_room-Outcome before.stamp c.stamp ns.policy name key fuel (charge key value)
            (replaced name key (swept name now_millis ns c)) here (omega (arith, fewer)) in
        rw loop.answered (finish loop.result loop.left loop.room loop.fits)

  pub write-Written :
      (fuel : ℕ)
      → Sound before
      → before.stamp + 1 < word
      → before.total_entries < fuel
      → Answers (write fuel name key value ttl_seconds now_millis writer before)
  unfolding write next_stamp
  write-Written fuel sound room enough =
      let after =
        Holds-later c before.stamp c.stamp (omega (arith, next_stamp-At before sound room)) sound in
      elim (Option-cases (lookup name before.namespaces)) [
        | inl h ↦ rw (write, h) (refused not_configured c after)
        | inr (ns, h) ↦
            elim (Result-cases (admit ns.policy key value ttl_seconds now_millis writer)) [
              | inl (e, bad) ↦ rw (write, h, bad) (refused e c after)
              | inr (deadline, good) ↦
                  rw (write, h, good) (admitted-Answers sound room ns h deadline good fuel enough)
            ]
      ]

-- From a state within the invariant, with more fuel than entries and a stamp counter below its limit,
-- `write` answers, and the state that it leaves is within the invariant: the totals exact and within
-- their limits, every namespace within its policy, and the indexes in agreement.
pub write-Sound :
    (name key value : Text) (ttl_seconds : ℤ) (now_millis : ℕ) (writer : Writer) (before : Cache)
    (fuel : ℕ)
    → Sound before
    → before.stamp + 1 < word
    → before.total_entries < fuel
    → (result : CacheResult (Unit {0})) × (left : Cache) × (write fuel name key value ttl_seconds
          now_millis writer before
        ≡ some (result, left))
      × Sound left
write-Sound name key value ttl_seconds now_millis writer before fuel sound room enough =
    let w =
      write-Written name key value ttl_seconds now_millis writer before fuel sound room enough in
    (w.result, w.left, w.answered, w.sound)
