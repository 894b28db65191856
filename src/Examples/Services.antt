-- ===== src/Examples/Services.antt =====
-- Inputs for retry.Retryable and redis.
use icinga_go_library.Prelude.{
  true, false, ◌||◌, ◌≡◌, refl, none, List, [], ◌∷◌, map, codes, has_prefix, text_eq,
}
use icinga_go_library.Retry.Retryable.{
  Facts, last, wrap, is_network_error, is_known, retryable, in_op, retryable-wrap,
}
use icinga_go_library.Database.SplitOnDupId.{Distinct}
use icinga_go_library.Redis.{Reply, page, hyield}
use icinga_go_library.Redis.Pairs.{hyield-Distinct}

-- an error of lib/pq that has no code
abbrev pq_text : Facts
pq_text = record {
  temporary = none;
  timeout = none;
  is_dns = false;
  sentinel = none;
  database = false;
  message = codes "pq: unexpected";
}

abbrev cant_perform : Facts
cant_perform = record {
  temporary = none;
  timeout = none;
  is_dns = false;
  sentinel = none;
  database = false;
  message = codes "can't perform \"x\": pq: unexpected";
}

-- recognised by its text, and no more behind `CantPerformQuery`
bare_text : retryable (last pq_text) ≡ true
unfolding retryable
bare_text = refl

wrapped_text : retryable (wrap cant_perform (last pq_text)) ≡ false
unfolding retryable
wrapped_text = refl

retryable-wrap_example : retryable (wrap cant_perform (last pq_text)) ≡ (
    is_network_error (last pq_text)
    || is_known (last pq_text)
    || has_prefix cant_perform.message (codes "pq: "))
retryable-wrap_example =
    retryable-wrap cant_perform (last pq_text)
      (record {
        no_temporary = refl;
        no_timeout = refl;
        no_dns = refl;
        no_sentinel = refl;
        no_database = refl;
      })
      (unfold in_op in refl)

-- two pages, the second of which repeats a field
abbrev replies : List Reply
replies =
    page (codes "a" ∷ codes "1" ∷ codes "b" ∷ codes "2" ∷ []) true 9
    ∷ page (codes "a" ∷ codes "1" ∷ codes "c" ∷ codes "3" ∷ []) false 9
    ∷ []

three_fields : map (λ p. p.field) (hyield replies).sent ≡ codes "a" ∷ codes "b" ∷ codes "c" ∷ []
unfolding hyield text_eq
three_fields = refl

hyield-Distinct_example : Distinct (map (λ p. p.field) (hyield replies).sent)
hyield-Distinct_example = hyield-Distinct replies
