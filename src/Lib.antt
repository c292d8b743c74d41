-- ===== src/Lib.antt =====
-- A verification of the copy-trading server lightspeed: monitors read the positions of traders on
-- Binance, turn what changed into updates, and bots follow the updates on an exchange.
--
-- The parts, with the files of the repository that each models:
--   Update, Update/Sides        classes/update.go: an update, the sides of a position
--   Trader, Trader/*            trader.go, classes/traderPosition.go: comparePositions, getUpdates
--   Monitor, Monitor/*          monitor.go (run), classes/clientProxy.go
--   Config                      db/botConfig.go (BotConfig, NewBotConfig), db/access.go (BotStatus)
--   Bot                         botRuntime.go (Bot and the types around it), classes/botPosition.go
--   Bot/Ignore                  ignore, unIgnore, isIgnored, the black and white lists
--   Bot/Hash                    classes/funcs.go: GetPosHash
--   Bot/Quantity                getValidPrice, getLimitPrice, getTPSL, getBulkQtyList, placeOrder
--   Bot/Open, Bot/Open/*        openPosition: its checks, its decision, its order, what it stores
--   Bot/Close, Bot/Close/*      closePosition and onSuccessfullClose
--   Bot/Change, Bot/Change/*    changePosition
--   Bot/Manual                  checkManualChanges and onUnexpectedSell
--   Bot/Join                    botStartup.go: handleTraderBotDifferences
--   Dispatch, Dispatch/*        botManagement.go: openPositions, closePositions, changePositions;
--                               monitor.go: sendAllUpdates
--   Trader/Requests             trader.go: getName, getInitPositions
--   Fleet                       monitor.go and handler.go (the bots of a monitor, the monitors of the
--                               handler), db/access.go (statuses and balances)
--   Fleet/Clients, Create       monitor.go: createClients, newMonitor, createNewMonitor; makeBot
--   Fleet/Start, Stop, Balance  botStartup.go: startBot, postBotLaunch, stopBot, fixCopyTradingBalance
--   Fleet/Launch                launch.go: launchMultipleBots, launchActiveMonitors
--   Fleet/*, the others         theorems on starts, stops, balances and proxies
--   Handlers, Handlers/*        handlersUser.go: the requests of a user
--   Admin, Admin/*              handlersAdmin.go: plans, and the number of a user's bots
--   Launch                      launch.go: the grouping in findStartupMonitors
--   Exchange, Exchange/Turns    classes/exchange.go: the http clients of an exchange
--   Exchange/Client, Positions  exchangeClients.go: positions, balance, price, leverage
--   Trades                      tradeStorage.go
--   Trades/Pnl, Found           pnlFinder.go: getPnl; exchangeClients.go: getClosedPNL
--   Trades/Watching, Starved    pnlFinder.go: the calls of getPnl that share bot.PnlWatching
--   Payments, Payments/*        payments.go, handlersPayments.go, classes/payments.go
--   Settings, Settings/*        handlersUser.go (getUpdateSettingsSQL), db/botConfig.go (GetSqlKey)
--   Caches/*                    classes/proxies.go, botLogs.go, launchingMonitorsCache.go
--
-- Base holds what the parts share: tests and lists over the native numbers, dictionaries for Go's
-- maps, integers. Numbers holds the operations on float64 and on Decimal (shopspring/decimal) that
-- the code calls, as records that the definitions take as instances, and the laws that a theorem
-- relies on, as records of hypotheses; an instance over the integers shows that they can hold.
--
-- A method of Bot becomes a function from the bot and from what the outside answers (the settings, the
-- exchange's answers, the clock) to an Outcome: the bot after it, the events in order (orders,
-- notifications, lines of the bot's log, goroutines started) and its two results, or a panic. The
-- mutex PosMtx makes one method run at a time. A goroutine that changes the bot is a function of its
-- own, applied to the event that started it. Updates reach bots with the side Buy or Sell, so that
-- Update.SwitchSide does not panic; NewFromFloat is applied to numbers. The monitor's loop runs over a list
-- of rounds, one for each pass with what the requests answer and what the select receives; every
-- function is by structural recursion and needs no fuel. The three attempts of TryClaimTx are the code's own
-- bound, and so are the five of getName and the ten of getPnl. Goroutines that share a cache are a step relation whose steps come in
-- any order.
--
-- A start or a stop of a bot is a function of the monitors that run, of the free proxies and of the rows of the
-- tables; a query is an operation on the rows, and a parameter says which queries fail. What Go defers is
-- applied to the result of what it is deferred by, last first. A goroutine that a stop starts runs to
-- its end with the stop; postBotLaunch is a function of its own.
--
-- A division of Decimals is total in the models. Where openPosition or changePosition divide by a number that can
-- be 0, or placeOrder cannot split their quantity, a test before the call makes the model panic as the code does.
-- closePosition takes placeOrder to return: a held position has a symbol with data.
-- TransactionByHash and HexToHash are a parameter, and so is what a text of a hash stands for.
--
-- Not modelled: the decoding of requests and the tokens, the database, Discord messages and their
-- texts, the requests to Binance, to the exchange and to the chain, the Phemex client, and the log of the process.
pub mod Base
pub mod Numbers
pub mod Update
pub mod Trader
pub mod Monitor
pub mod Config
pub mod Bot
pub mod Payments
pub mod Settings
pub mod Caches
pub mod Dispatch
pub mod Launch
pub mod Trades
pub mod Fleet
pub mod Admin
pub mod Handlers
pub mod Exchange
