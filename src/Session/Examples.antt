-- ===== src/Session/Examples.antt =====
-- The session store's theorems at concrete inputs, on a Redis that can be made to raise.
use auth_n_z.Common.{
  is_some, lookup, insert, remove, contains, add, discard, String, ◌≡◌, refl, subst, true, false,
  none, some, [], ◌∷◌, arith,
}
use auth_n_z.Session.Store.{
  Session, SessionRedis, Sessions, create_session, get_session, delete_session, on_redis,
  delete_stored, delete_all_user_sessions, all_but, remove_all, discard_all, store_session,
}
use auth_n_z.Session.Index.{IsIndexed, IsIndexedIn, create_session-IsIndexed}
use auth_n_z.Session.Outage.{survives_delete}

-- a Redis that raises on every write of a session, and knows none
abbrev down : SessionRedis
down = record {
  Db = Unit {0};
  hset = λ k v d. (none, d);
  hset_data = λ k v d. (none, d);
  hgetall = λ k d. (some none, d);
  expire = λ k t d. (some false, d);
  sadd = λ k v d. (some tt, d);
  srem = λ k v d. (some tt, d);
  smembers = λ k d. (some [], d);
  delete = λ ks d. (some 0, d);
}

abbrev quiet : Sessions down
quiet = record { redis = none; in_memory = []; user_index = [] }

abbrev served : Sessions down
served = record { redis = some tt; in_memory = []; user_index = [] }

abbrev anns : Session
anns = record { user_id = "ann"; created_at = 100; fields = [] }

abbrev first : String
first = "s1"

abbrev second : String
second = "s2"

-- two sessions of Ann and one of Bob, made without Redis
abbrev three : Sessions down
three = record {
  redis = none;
  in_memory =
      ("s1", anns)
      ∷ ("s2", record { user_id = "ann"; created_at = 101; fields = [] })
      ∷ ("s3", record { user_id = "bob"; created_at = 102; fields = [] })
      ∷ [];
  user_index = ("ann", "s2" ∷ "s1" ∷ []) ∷ ("bob", "s3" ∷ []) ∷ [];
}

quiet-IsIndexed : IsIndexed down quiet
unfolding IsIndexed IsIndexedIn lookup
quiet-IsIndexed id held there = ground arith

abbrev two : Sessions down
two = create_session down "s2" "ann" 101 [] 60 (create_session down "s1" "ann" 100 [] 60 quiet)

three_made : create_session down "s3" "bob" 102 [] 60 two ≡ three
unfolding create_session on_redis insert add contains lookup
three_made = refl

three-IsIndexed : IsIndexed down three
three-IsIndexed =
    let one = create_session-IsIndexed down "s1" "ann" 100 [] 60 quiet quiet-IsIndexed in
    let both =
      create_session-IsIndexed down "s2" "ann" 101 [] 60
        (create_session down "s1" "ann" 100 [] 60 quiet) one in
    subst (IsIndexed down) three_made (create_session-IsIndexed down "s3" "bob" 102 [] 60 two both)

-- ending Ann's sessions but "s2" leaves "s2" and Bob's
others_ended :
    let s = (delete_all_user_sessions down "ann" (some "s2") three).1 in
    ((delete_all_user_sessions down "ann" (some "s2") three).0 ≡ 1)
    × (is_some (lookup "s1" s.in_memory) ≡ false)
    × (is_some (lookup "s2" s.in_memory) ≡ true)
    × (is_some (lookup "s3" s.in_memory) ≡ true)
unfolding delete_all_user_sessions on_redis lookup insert remove all_but remove_all discard_all
    contains discard
others_ended = (refl, refl, refl, refl)

abbrev after_outage : Sessions down
after_outage = record {
  redis = some tt;
  in_memory = ("s1", anns) ∷ [];
  user_index = ("ann", "s1" ∷ []) ∷ [];
}

-- the session that Redis did not take is in memory
made_in_outage : create_session down "s1" "ann" 100 [] 3600 served ≡ after_outage
unfolding create_session on_redis store_session insert add contains lookup
made_in_outage = refl

survives_delete_example :
    ((delete_session down "s1" after_outage).0 ≡ false)
    × ((get_session down "s1" (delete_session down "s1" after_outage).1).0 ≡ some anns)
unfolding lookup on_redis delete_stored
survives_delete_example = survives_delete down "s1" anns after_outage refl refl refl refl
