-- ===== src/Examples/OfBus.antt =====
-- A bus with a callback for every event, and one that raises for placed orders.
use unified_trading_executio.Base.{◌+◌, ◌≡◌, Bool, [], ◌∷◌, ◌==◌, ℕ_key}
use unified_trading_executio.Bus.{
  Callback, EventBus, any_event, order_placed, fill, subscribe, unsubscribe, publish,
}
use unified_trading_executio.Bus.Delivery.{
  times, subscriptions, noting, publish-subscriptions, subscriptions-unsubscribe,
}

abbrev bus : EventBus
bus = (any_event, 1 ∷ []) ∷ (order_placed, 2 ∷ 3 ∷ []) ∷ (fill, 3 ∷ []) ∷ []

abbrev second_raises : Callback → Bool
second_raises c = c == 2

publish-subscriptions_example :
    times 3 (publish (noting second_raises) bus order_placed (3 ∷ []))
    ≡ times 3 (3 ∷ []) + subscriptions 3 order_placed bus
publish-subscriptions_example = publish-subscriptions second_raises bus order_placed 3 (3 ∷ [])

abbrev newcomer : Callback
newcomer = 4

subscriptions-unsubscribe_example :
    subscriptions 3 fill (unsubscribe fill newcomer (subscribe fill newcomer bus))
    ≡ subscriptions 3 fill bus
subscriptions-unsubscribe_example = subscriptions-unsubscribe bus fill fill newcomer 3
