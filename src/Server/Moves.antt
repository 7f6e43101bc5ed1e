-- ===== src/Server/Moves.antt =====
-- What the attempts of Server.Attempts leave of a session: they read packets from the front of the
-- input, keep the cache faithful and do not count.
use xcryptossh.Prelude.{
  ℕ, ◌≡◌, refl, ap, sym, subst, ◌∙◌, List, [], ◌∷◌, ◌++◌, Option, none, some, Bytes, Bool, true,
  false, ◌==◌, if◌then◌else◌, Result, ok, err, All, append_assoc, length,
}
use xcryptossh.Errors.{Error}
use xcryptossh.Wire.Strings.{parse_string}
use xcryptossh.Server.{
  Permissions, Refusal, Failure, of_packet, of_key, bad_algo, Dialogue, done, ask, Server, Session,
  CachedPubKey, is_acceptable_algo, restrict, cache_get, cache_add, not_configured,
}
use xcryptossh.Server.Cache.{IsFaithful, find_candidate_lem, Trusted}
use xcryptossh.Server.Attempts.{
  AuthRequest, Attempt, fatal, refused, bad_request, Method, none', password, keyboard_interactive,
  public_key, unknown, attempt, check_password, converse, outcome, check_public_key, check_key,
  use_candidate, find_candidate, challenge, await_answers, reply, prompts, read_answers,
  info_request,
}

module _ {E : Type 0} where
  -- The packets between two states have been read.
  pub record ReadsOn (s s' : Session E) : Type 0 where
    pub front : List Bytes
    pub moved : s.input ≡ front ++ s'.input
    pub uncounted : s'.auth_failures ≡ s.auth_failures

  pub stays :
      (s s' : Session E) → s.input ≡ s'.input → s'.auth_failures ≡ s.auth_failures → ReadsOn s s'
  stays s s' e f = record { front = []; moved = e; uncounted = f }

  moves_on : (a b c : Session E) → ReadsOn a b → ReadsOn b c → ReadsOn a c
  moves_on a b c p q = record {
    front = p.front ++ q.front;
    moved = p.moved ∙ (ap (λ l. p.front ++ l) q.moved ∙ sym (append_assoc p.front q.front c.input));
    uncounted = q.uncounted ∙ p.uncounted;
  }

  await_answers-ReadsOn :
      (n : ℕ) (e : Option Error) (s : Session E)
      → ReadsOn s (await_answers n (e, s)).1 × ((await_answers n (e, s)).1.cache ≡ s.cache)
  unfolding await_answers
  await_answers-ReadsOn n (some e) s = (stays s s refl refl, refl)
  await_answers-ReadsOn n none s = go s.input refl
    where
      out : List Bytes → Result (Failure E) (List Bytes) × Session E
      out l = elim l [
        | [] ↦ (err (of_packet s.end), s)
        | packet ∷ rest ↦ (read_answers n packet, record s { input = rest })
      ]

      go : (l : List Bytes) → s.input ≡ l → ReadsOn s (out l).1 × ((out l).1.cache ≡ s.cache)
      go [] e = (stays s s refl refl, refl)
      go (packet ∷ rest) e = (record { front = packet ∷ []; moved = e; uncounted = refl }, refl)

  challenge-ReadsOn :
      (instruction : Bytes) (questions : List Bytes) (echos : List Bool) (s : Session E)
      → ReadsOn s (challenge instruction questions echos s).1
        × ((challenge instruction questions echos s).1.cache ≡ s.cache)
  unfolding challenge
  challenge-ReadsOn instruction questions echos s = go (prompts [] questions echos)
    where
      out : Option Bytes → Result (Failure E) (List Bytes) × Session E
      out o = elim o [
        | none ↦ (err (of_packet Error.unequal_prompts), s)
        | some bytes ↦
            await_answers (length questions)
              (reply (info_request instruction (length questions) bytes) s)
      ]

      go : (o : Option Bytes) → ReadsOn s (out o).1 × ((out o).1.cache ≡ s.cache)
      go none = (stays s s refl refl, refl)
      go (some bytes) =
          let packet : Bytes = info_request instruction (length questions) bytes in
          let (on, kept) =
            await_answers-ReadsOn (length questions) (reply packet s).0 (reply packet s).1 in
          (
            moves_on s (reply packet s).1 _ (unfold reply in stays s (reply packet s).1 refl refl)
                on,
            kept ∙ (unfold reply in refl),
          )

  converse-ReadsOn :
      (d : Dialogue E) (s : Session E)
      → ReadsOn s (converse d s).1 × ((converse d s).1.cache ≡ s.cache)
  unfolding converse
  converse-ReadsOn (done r) s = (stays s s refl refl, refl)
  converse-ReadsOn (ask instruction questions echos next) s =
      let (on, kept) = challenge-ReadsOn instruction questions echos s in
      let (on', kept') =
        converse-ReadsOn (next (challenge instruction questions echos s).0)
          (challenge instruction questions echos s).1 in
      (moves_on s (challenge instruction questions echos s).1 _ on on', kept' ∙ kept)

module _ {K E IP Net : Type 0} (S : Server K E IP Net)
    (f : Bytes → K → Result E (Option Permissions)) where
  -- Trying a key changes nothing but the cache, which stays faithful.
  pub record OnlyCaches (s s' : Session E) : Type 0 where
    pub reads_on : ReadsOn s s'
    pub faithful : All (IsFaithful S f) s'.cache

  find_candidate-ReadsOn :
      (user key_data : Bytes) (key : K) (s : Session E)
      → ReadsOn s (find_candidate S f user key_data key s).1
  unfolding find_candidate
  find_candidate-ReadsOn user key_data key s = go (cache_get user key_data s.cache)
    where
      result : Result (Refusal E) (Option Permissions)
      result = restrict S (f user key)

      go :
          (o : Option (CachedPubKey E))
          → ReadsOn s
              (elim o as (λ _. Result (Refusal E) (Option Permissions) × Session E) [
                | some candidate ↦ (candidate.result, s)
                | none ↦ (
                  result,
                  record s {
                    cache =
                        cache_add
                          (record { user = user; pub_key_data = key_data; result = result })
                          s.cache;
                  },
                )
              ]).1
      go none = record { front = []; moved = refl; uncounted = refl }
      go (some c) = stays s s refl refl

  check_key-OnlyCaches :
      (req : AuthRequest) (is_query : Bool) (algo payload : Bytes) (s : Session E)
      → All (IsFaithful S f) s.cache
      → OnlyCaches s (check_key S f req is_query algo payload s).1
  unfolding check_key use_candidate
  check_key-OnlyCaches req is_query algo payload s faithful = go (parse_string payload)
    where
      same : OnlyCaches s s
      same = record { reads_on = stays s s refl refl; faithful = faithful }

      keyed : Bytes → Bytes → Result E K → Attempt E × Session E
      keyed key_data rest r = elim r [
        | err e ↦ (fatal (of_key e), s)
        | ok key ↦
            use_candidate S req is_query algo key_data key rest
              (find_candidate S f req.user key_data key s)
      ]

      with_key :
          (key_data rest : Bytes) (r : Result E K)
          → S.parse_public_key key_data ≡ r
          → OnlyCaches s (keyed key_data rest r).1
      with_key key_data rest (err e) q = same
      with_key key_data rest (ok key) q = record {
        reads_on = find_candidate-ReadsOn req.user key_data key s;
        faithful = (find_candidate_lem S f req.user key_data key s q faithful).1;
      }

      go :
          (o : Option (Bytes × Bytes))
          → OnlyCaches s
              (elim o as (λ _. Attempt E × Session E) [
                | none ↦ (bad_request, s)
                | some (key_data, rest) ↦ keyed key_data rest (S.parse_public_key key_data)
              ]).1
      go none = same
      go (some (key_data, rest)) = with_key key_data rest (S.parse_public_key key_data) refl

  check_public_key-OnlyCaches :
      (req : AuthRequest) (payload : Bytes) (s : Session E)
      → All (IsFaithful S f) s.cache
      → OnlyCaches s (check_public_key S f req payload s).1
  unfolding check_public_key
  check_public_key-OnlyCaches req [] s faithful = record {
    reads_on = stays s s refl refl;
    faithful = faithful;
  }
  check_public_key-OnlyCaches req (flag ∷ body) s faithful = go (parse_string body)
    where
      same : OnlyCaches s s
      same = record { reads_on = stays s s refl refl; faithful = faithful }

      tested : Bytes → Bytes → Bool → Attempt E × Session E
      tested algo rest b =
          if b then check_key S f req (flag == 0) algo rest s else (refused (bad_algo algo), s)

      test : (algo rest : Bytes) (b : Bool) → OnlyCaches s (tested algo rest b).1
      test algo rest true = check_key-OnlyCaches req (flag == 0) algo rest s faithful
      test algo rest false = same

      go :
          (o : Option (Bytes × Bytes))
          → OnlyCaches s
              (elim o as (λ _. Attempt E × Session E) [
                | none ↦ (bad_request, s)
                | some (algo, rest) ↦ tested algo rest (is_acceptable_algo algo)
              ]).1
      go none = same
      go (some (algo, rest)) = test algo rest (is_acceptable_algo algo)

module _ {K E IP Net : Type 0} (S : Server K E IP Net) where
  -- An attempt reads on, counts nothing and keeps the cache faithful.
  pub attempt-ReadsOn :
      (req : AuthRequest) (m : Method) (s : Session E)
      → Trusted S S.public_key_callback s.cache
      → ReadsOn s (attempt S req m s).1
        × Trusted S S.public_key_callback (attempt S req m s).1.cache
  unfolding attempt
  attempt-ReadsOn req none' s t = (stays s s refl refl, t)
  attempt-ReadsOn req unknown s t = (stays s s refl refl, t)
  attempt-ReadsOn req password s t = go S.password_callback
    where
      go :
          (o : Option (Bytes → Bytes → Result E (Option Permissions)))
          → ReadsOn s
              (elim o as (λ _. Attempt E × Session E) [
                | none ↦ (refused not_configured, s)
                | some f ↦ (check_password (f req.user) req.payload, s)
              ]).1
            × Trusted S S.public_key_callback
                (elim o as (λ _. Attempt E × Session E) [
                  | none ↦ (refused not_configured, s)
                  | some f ↦ (check_password (f req.user) req.payload, s)
                ]).1.cache
      go none = (stays s s refl refl, t)
      go (some f) = (stays s s refl refl, t)
  attempt-ReadsOn req keyboard_interactive s t = go S.interactive_callback
    where
      out : Option (Bytes → Dialogue E) → Attempt E × Session E
      out o = elim o [
        | none ↦ (refused not_configured, s)
        | some f ↦ (outcome (converse (f req.user) s).0, (converse (f req.user) s).1)
      ]

      go :
          (o : Option (Bytes → Dialogue E))
          → ReadsOn s (out o).1 × Trusted S S.public_key_callback (out o).1.cache
      go none = (stays s s refl refl, t)
      go (some f) =
          let (on, kept) = converse-ReadsOn (f req.user) s in
          (on, subst (Trusted S S.public_key_callback) (sym kept) t)
  attempt-ReadsOn req public_key s t = go S.public_key_callback t
    where
      out : Option (Bytes → K → Result E (Option Permissions)) → Attempt E × Session E
      out o = elim o [
        | none ↦ (refused not_configured, s)
        | some f ↦ check_public_key S f req req.payload s
      ]

      go :
          (o : Option (Bytes → K → Result E (Option Permissions)))
          → Trusted S o s.cache
          → ReadsOn s (out o).1 × Trusted S o (out o).1.cache
      go none faithful = (stays s s refl refl, tt)
      go (some f) faithful =
          let only = check_public_key-OnlyCaches S f req req.payload s faithful in
          (only.reads_on, only.faithful)
