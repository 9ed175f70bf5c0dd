-- ===== src/Handler/Message.antt =====
-- Requests and responses as the handlers see them: `http::Request<Body>` and `http::Response<Body>`.
use chaos_tproxy.Prelude.{ℕ}
use chaos_tproxy.External.{Http}

pub record Request (h : Http) : Type 0 where
  pub method : h.Method
  pub uri : h.Uri
  pub headers : h.HeaderMap
  pub body : h.Body

pub record Response (h : Http) : Type 0 where
  pub status : h.StatusCode
  pub headers : h.HeaderMap
  pub body : h.Body

-- What a handler does that can be seen from outside: it sleeps for a delay, in nanoseconds, or it
-- sends a request on to the target.
pub data Event (h : Http) : Type 0 where
  slept : ℕ → Event h
  forwarded : Request h → Event h
