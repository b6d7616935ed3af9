-- ===== src/Pool/Choosing.antt =====
-- Which thread a connection is given to: KDSoapThreadPool::Private::chooseNextThread of
-- src/KDSoapServer/KDSoapThreadPool.cpp.
use Prim.Native.Nat.{zero-le}
use kdsoap.Prelude.{
  ℕ, zero, suc, ◌+◌, ◌≤◌, ◌<◌, List, [], ◌∷◌, ◌++◌, append_assoc, append-nil, Option, none, some,
  Bool-cases, true, false, inl, inr, ◌≡◌, refl, sym, ◌∙◌, ap, subst, arith, ltb, ◌==◌, ==_iff,
  if◌then◌else◌, length, length-append, get_elem?, All, All-append, All-imp, ℤ, pos, eq_ℤ, ◌≤ℤ◌,
  ◌≢◌,
}
use kdsoap.Pool.{
  Thread, Pool, Choice, idle, best, new_thread, socket_count, better, look, choose, create_thread,
  choose_next_thread,
}

get_elem?-append :
    (xs ys : List Thread) (i : ℕ) (t : Thread)
    → get_elem? xs i ≡ some t
    → get_elem? (xs ++ ys) i ≡ some t
get_elem?-append [] ys i t h = cc
get_elem?-append (x ∷ xs) ys zero t h = h
get_elem?-append (x ∷ xs) ys (suc i) t h = get_elem?-append xs ys i t h

get_elem?-length :
    (xs ys : List Thread) (t : Thread) → get_elem? (xs ++ t ∷ ys) (length xs) ≡ some t
get_elem?-length [] ys t = refl
get_elem?-length (x ∷ xs) ys t = get_elem?-length xs ys t

-- A thread at that place, with that number of sockets.
abbrev At : List Thread → ℕ → ℕ → Type 0
At ts i n = (t : Thread) × (get_elem? ts i ≡ some t) × (socket_count t ≡ n)

-- The best thread has as few sockets as any.
abbrev Best : List Thread → Option (ℕ × ℕ) → Type 0
Best ts none = ts ≡ []
Best ts (some (i, n)) = At ts i n × All (λ t. n ≤ socket_count t) ts

abbrev Chosen : List Thread → Choice → Type 0
Chosen ts (idle i) = At ts i 0
Chosen ts (best r) = Best ts r

le_of_ltb : (a n b : ℕ) → ltb a n ≡ true → n ≤ b → a ≤ b
le_of_ltb a n b e h = ground arith

le_of_not_ltb : (a n : ℕ) → ltb a n ≡ false → n ≤ a
le_of_not_ltb a n e = ground arith

better-Best :
    (seen : List Thread) (t : Thread) (r : Option (ℕ × ℕ))
    → Best seen r
    → Best (seen ++ t ∷ []) (better r (length seen) (socket_count t))
unfolding better
better-Best seen t none h = rw h ((t, refl, refl), (omega arith, tt))
better-Best seen t (some (i, n)) ((u, there, same), least) =
    elim (Bool-cases (ltb (socket_count t) n)) [
      | inl e ↦
          subst
            (λ b.
              Best (seen ++ t ∷ []) (if b then some (length seen, socket_count t) else some (i, n)))
            (sym e)
            (
              (t, get_elem?-length seen [] t, refl),
              All-append (λ x. socket_count t ≤ socket_count x) seen (t ∷ [])
                  (All-imp (λ x. n ≤ socket_count x) (λ x. socket_count t ≤ socket_count x)
                    (λ x h. le_of_ltb (socket_count t) n (socket_count x) e h) seen least)
                  (omega arith, tt),
            )
      | inr e ↦
          subst
            (λ b.
              Best (seen ++ t ∷ []) (if b then some (length seen, socket_count t) else some (i, n)))
            (sym e)
            (
              (u, get_elem?-append seen (t ∷ []) i u there, same),
              All-append (λ x. n ≤ socket_count x) seen (t ∷ []) least
                  (le_of_not_ltb (socket_count t) n e, tt),
            )
    ]

length_snoc : (ts : List Thread) (t : Thread) → length (ts ++ t ∷ []) ≡ suc (length ts)
length_snoc ts t = omega (arith, length-append ts (t ∷ []))

look-Chosen :
    (seen ts : List Thread) (r : Option (ℕ × ℕ))
    → Best seen r
    → Chosen (seen ++ ts) (look (length seen) r ts)
unfolding look
look-Chosen seen [] r h = subst (λ xs. Best xs r) (sym (append-nil seen)) h
look-Chosen seen (t ∷ ts) r h = elim (Bool-cases (socket_count t == 0)) [
  | inl e ↦
      subst
        (λ b. Chosen (seen ++ t ∷ ts) (
          if b
          then idle (length seen)
          else look (suc (length seen)) (better r (length seen) (socket_count t)) ts))
        (sym e) (t, get_elem?-length seen ts t, (==_iff (socket_count t) 0).0 e)
  | inr e ↦
      subst
        (λ b. Chosen (seen ++ t ∷ ts) (
          if b
          then idle (length seen)
          else look (suc (length seen)) (better r (length seen) (socket_count t)) ts))
        (sym e)
        (subst
          (λ xs. Chosen xs (look (suc (length seen)) (better r (length seen) (socket_count t)) ts))
          (append_assoc seen (t ∷ []) ts)
          (subst
            (λ n.
              Chosen ((seen ++ t ∷ []) ++ ts) (look n (better r (length seen) (socket_count t)) ts))
            (length_snoc seen t)
            (look-Chosen (seen ++ t ∷ []) ts (better r (length seen) (socket_count t))
              (better-Best seen t r h))))
]

All-zero : (ts : List Thread) → All (λ t. 0 ≤ socket_count t) ts
All-zero [] = tt
All-zero (t ∷ ts) = (zero-le, All-zero ts)

-- The place of a thread that has as few sockets as any of the threads that were there.
abbrev Least : List Thread → Pool × ℕ → Type 0
Least ts (q, i) =
    (t : Thread) × (get_elem? q.threads i ≡ some t) × All (λ u. socket_count t ≤ socket_count u) ts

create-Least : (p : Pool) → Least p.threads (create_thread p)
create-Least p = (new_thread, get_elem?-length p.threads [] new_thread, All-zero p.threads)

choose-Least : (p : Pool) (c : Choice) → Chosen p.threads c → Least p.threads (choose p c)
unfolding choose
choose-Least p (idle i) (t, there, none_there) = (
  t,
  there,
  subst (λ n. All (λ u. n ≤ socket_count u) p.threads) (sym none_there) (All-zero p.threads),
)
choose-Least p (best none) h = create-Least p
choose-Least p (best (some (i, n))) ((t, there, same), least) =
    elim (Bool-cases (eq_ℤ (pos (length p.threads)) p.max_thread_count)) [
      | inl e ↦
          subst (λ b. Least p.threads (if b then (p, i) else create_thread p)) (sym e)
            (t, there, subst (λ n. All (λ u. n ≤ socket_count u) p.threads) (sym same) least)
      | inr e ↦
          subst (λ b. Least p.threads (if b then (p, i) else create_thread p)) (sym e)
            (create-Least p)
    ]

-- The thread that is chosen for a connection, an old or a new one, is among the threads of the
-- pool afterwards and has as few sockets, connections on their way included, as any thread that
-- was there.
pub choose_next_thread-Least :
    (p : Pool)
    → let (q, i) = choose_next_thread p in
      (t : Thread) × (get_elem? q.threads i ≡ some t)
      × All (λ u. socket_count t ≤ socket_count u) p.threads
unfolding choose_next_thread
choose_next_thread-Least p = choose-Least p _ (look-Chosen [] p.threads none refl)

below : (a n : ℕ) (m : ℤ) → eq_ℤ (pos a) m ≡ false → m ≡ pos n → a ≤ n → a < n
below a n m e f h = ground arith

ne_zero : (n : ℕ) → n ≢ 0 → (n == 0) ≡ false
ne_zero n h = ground arith

not_reached : (a : ℕ) (m : ℤ) → 0 < a → m ≤ℤ pos 0 → eq_ℤ (pos a) m ≡ false
not_reached a m h k = ground arith

get_elem?-lt : (ts : List Thread) (i : ℕ) (t : Thread) → get_elem? ts i ≡ some t → 0 < length ts
get_elem?-lt [] i t h = cc
get_elem?-lt (u ∷ ts) i t h = omega arith

choose-unlimited :
    (p : Pool) (r : Option (ℕ × ℕ))
    → p.max_thread_count ≤ℤ pos 0
    → Best p.threads r
    → length (choose p (best r)).0.threads ≡ length p.threads + 1
unfolding choose
choose-unlimited p none m h = omega (arith, length_snoc p.threads new_thread)
choose-unlimited p (some (i, n)) m ((t, there, _), _) =
    subst (λ b. length (if b then (p, i) else create_thread p).0.threads ≡ length p.threads + 1)
      (sym (not_reached (length p.threads) p.max_thread_count (get_elem?-lt p.threads i t there) m))
      (omega (arith, length_snoc p.threads new_thread))

choose-bound :
    (p : Pool) (n : ℕ) (c : Choice)
    → p.max_thread_count ≡ pos n
    → 0 < n
    → length p.threads ≤ n
    → Chosen p.threads c
    → length (choose p c).0.threads ≤ n
unfolding choose
choose-bound p n (idle i) m k h c = h
choose-bound p n (best none) m k h c = omega (arith, ap length c, length_snoc p.threads new_thread)
choose-bound p n (best (some (i, s))) m k h c =
    elim (Bool-cases (eq_ℤ (pos (length p.threads)) p.max_thread_count)) [
      | inl e ↦ subst (λ b. length (if b then (p, i) else create_thread p).0.threads ≤ n) (sym e) h
      | inr e ↦
          subst (λ b. length (if b then (p, i) else create_thread p).0.threads ≤ n) (sym e)
            (omega (
              arith,
              below (length p.threads) n p.max_thread_count e m h,
              length_snoc p.threads new_thread,
            ))
    ]

-- A pool with a positive limit that has no more threads than its limit has no more after a thread
-- is chosen.
pub choose_next_thread-bound :
    (p : Pool) (n : ℕ)
    → p.max_thread_count ≡ pos n
    → 0 < n
    → length p.threads ≤ n
    → length (choose_next_thread p).0.threads ≤ n
unfolding choose_next_thread
choose_next_thread-bound p n m k h = choose-bound p n _ m k h (look-Chosen [] p.threads none refl)

look-busy :
    (i : ℕ) (r : Option (ℕ × ℕ)) (ts : List Thread)
    → All (λ t. socket_count t ≢ 0) ts
    → (s : Option (ℕ × ℕ)) × (look i r ts ≡ best s)
unfolding look
look-busy i r [] h = (r, refl)
look-busy i r (t ∷ ts) (k, h) =
    let (s, e) = look-busy (suc i) (better r i (socket_count t)) ts h in
    (
      s,
      subst (λ b. (if b then idle i else look (suc i) (better r i (socket_count t)) ts) ≡ best s)
          (sym (ne_zero (socket_count t) k)) e,
    )

-- With a limit of zero or less, a pool whose threads are all busy has one thread more after a
-- thread is chosen.
pub choose_next_thread-unlimited :
    (p : Pool)
    → p.max_thread_count ≤ℤ pos 0
    → All (λ t. socket_count t ≢ 0) p.threads
    → length (choose_next_thread p).0.threads ≡ length p.threads + 1
unfolding choose_next_thread
choose_next_thread-unlimited p m h =
    let (s, e) = look-busy 0 none p.threads h in
    ap (λ c. length (choose p c).0.threads) e
    ∙ choose-unlimited p s m (subst (Chosen p.threads) e (look-Chosen [] p.threads none refl))
