-- ===== src/Gateway/Mcp/Answers.antt =====
-- How many of the things that a connection sends are answers.
use confidential_agent.Common.{ℕ, ◌+◌, List, [], ◌∷◌, ◌++◌, ◌≡◌, refl, ap}
use confidential_agent.Gateway.Mcp.Respond.{HttpResponse}
use confidential_agent.Gateway.Mcp.{Sent, answered, withheld, invalid}

-- How many answers were sent.
unfoldable pub answers : List Sent → ℕ
answers [] = 0
answers (answered response ∷ sent) = answers sent + 1
answers (withheld response ∷ sent) = answers sent
answers (invalid response ∷ sent) = answers sent

pub answers-append_answered :
    (sent : List Sent) (r : HttpResponse) → answers (sent ++ (answered r ∷ [])) ≡ answers sent + 1
unfolding answers
answers-append_answered [] r = refl
answers-append_answered (answered s ∷ sent) r = ap (λ n. n + 1) (answers-append_answered sent r)
answers-append_answered (withheld s ∷ sent) r = answers-append_answered sent r
answers-append_answered (invalid s ∷ sent) r = answers-append_answered sent r

pub answers-append_withheld :
    (sent : List Sent) (r : HttpResponse) → answers (sent ++ (withheld r ∷ [])) ≡ answers sent
unfolding answers
answers-append_withheld [] r = refl
answers-append_withheld (answered s ∷ sent) r = ap (λ n. n + 1) (answers-append_withheld sent r)
answers-append_withheld (withheld s ∷ sent) r = answers-append_withheld sent r
answers-append_withheld (invalid s ∷ sent) r = answers-append_withheld sent r

pub answers-append_invalid :
    (sent : List Sent) (r : HttpResponse) → answers (sent ++ (invalid r ∷ [])) ≡ answers sent
unfolding answers
answers-append_invalid [] r = refl
answers-append_invalid (answered s ∷ sent) r = ap (λ n. n + 1) (answers-append_invalid sent r)
answers-append_invalid (withheld s ∷ sent) r = answers-append_invalid sent r
answers-append_invalid (invalid s ∷ sent) r = answers-append_invalid sent r
