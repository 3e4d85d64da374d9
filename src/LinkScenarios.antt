-- ===== src/LinkScenarios.antt =====
-- Links that are asked for again at the small service of Scenarios.
use poc_hydra_auth.Prelude.{ℕ, refl, List, [], ◌∷◌}
use poc_hydra_auth.Domain.Status.{role_operator}
use poc_hydra_auth.Service.{Request, run, requests_reset, invites}
use poc_hydra_auth.History.Keyed.{Keyed, no_rows, row}
use poc_hydra_auth.History.Single.{both_unused, both_open}
use poc_hydra_auth.History.Links.{one_link_each}
use poc_hydra_auth.Scenarios.{K, env, laws, world, reset_link}

abbrev asked_again : List (ℕ × K × Request)
asked_again =
    (110, tt, requests_reset "a@example.org")
    ∷ (120, tt, requests_reset "a@example.org")
    ∷ (130, tt, invites "c@example.org" role_operator)
    ∷ (140, tt, invites "c@example.org" role_operator)
    ∷ []

one_link_each_example :
    Keyed both_unused (run env asked_again world).db.password_reset_tokens
    × Keyed both_open (run env asked_again world).db.invitation_tokens
one_link_each_example =
    one_link_each env laws asked_again world (row reset_link refl no_rows) no_rows
