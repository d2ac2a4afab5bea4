-- ===== src/Orders/Payment/Entitled.antt =====
-- The ways in which an order becomes paid, of internal/modules/orders/confirm.go and webhook.go: what any
-- calls, in any order, leave of a sale.
use Prim.Native.String.{String}
use market_place.Orders.Types.{Accounts}
use market_place.Orders.Payment.Handler.{Sale}
use market_place.Orders.Payment.Elsewhere.{Elsewhere}
use market_place.Orders.Payment.Awaiting.{Books, StandingAfter as StandingOn}

module _ (a : Accounts) (provider : String) where
  abbrev StandingAfter : Books → Sale → Type 0
  StandingAfter = StandingOn a provider
