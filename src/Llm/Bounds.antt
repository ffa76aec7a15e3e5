-- ===== src/Llm/Bounds.antt =====
-- What a completion asks of the provider.
use ocis_workflows.Base.{ℕ, ◌≤◌, Text, is_empty, not, true, List, [], ◌∷◌, ok, ◌≡◌, arith}
use ocis_workflows.Base.Ensures.{Leaves-continue, Leaves-wrap, Leaves-require}
use ocis_workflows.Llm.{
  Message, Limit, below_zero, tokens, Provider, ceiling, new, clamped, chosen_model, first_choice,
  chat, complete,
}

ceiling_positive : (limit : Limit) → 1 ≤ ceiling limit
ceiling_positive below_zero = omega arith
ceiling_positive (tokens n) = ground arith

clamped_bounds :
    (most : ℕ) (limit : Limit) → 1 ≤ most → (1 ≤ clamped most limit) × (clamped most limit ≤ most)
unfolding clamped
clamped_bounds most below_zero h = (h, omega arith)
clamped_bounds most (tokens n) h = (ground (arith, h), ground (arith, h))

module _ {W : Type 0} (p : Provider W) (P : W → Type 0) where
  Leaves-first_choice : (choices : List Text) (w : W) → P w → P (first_choice choices w).1
  Leaves-first_choice [] w h = h
  Leaves-first_choice (content ∷ rest) w h = h

  -- Whatever is asked for, a client made by `New` calls nothing but its own endpoint, which is then
  -- not empty, with the messages as they are, with the model asked for or its own, and with at least
  -- one token and at most its ceiling: a property of the world that such requests keep is kept.
  pub complete-Leaves :
      (endpoint api_key model : Text) (most : Limit) (messages : List Message)
      (model_override : Text) (limit : Limit)
      → let c = new endpoint api_key model most in
        ((w : W) (n : ℕ) (body : Text)
          → not (is_empty c.endpoint) ≡ true
          → 1 ≤ n
          → n ≤ c.max_tokens
          → p.encode_chat (record {
            model = chosen_model c model_override;
            messages = messages;
            max_tokens = n;
          })
            ≡ ok body
          → P w
          → P (p.http.send (chat p c body) w).1)
        → (w : W) → P w
        → P (complete p c messages model_override limit w).1
  unfolding complete new
  complete-Leaves endpoint api_key model most messages model_override limit sent w h =
      let bounds = clamped_bounds (ceiling most) limit (ceiling_positive most) in
      search (Leaves-continue P, Leaves-wrap P, Leaves-require P, Leaves-first_choice, sent, bounds)
        depth 12
