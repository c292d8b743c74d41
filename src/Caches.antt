-- ===== src/Caches.antt =====
-- What goroutines share under a mutex: classes/proxies.go, classes/botLogs.go,
-- classes/launchingMonitorsCache.go.
pub mod Proxies
pub mod Logs
pub mod Launching
mod Tests
