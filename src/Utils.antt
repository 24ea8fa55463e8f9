-- ===== src/Utils.antt =====
-- include/rtspserver/utils: the string helpers, the queues, the thread pool and the
-- descriptors.
pub mod StringUtils
pub mod BlockingQueue
pub mod UniqueFd
